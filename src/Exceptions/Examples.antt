-- ===== src/Exceptions/Examples.antt =====
-- A page fault in an empty address space, with a second process that is running.
use klos.Base.{
  update, ℕ, ◌≡◌, ◌<◌, ◌^◌, refl, some, true, List, [], ◌∷◌, ◌==◌, if◌then◌else◌, arith,
}
use klos.Console.{Console}
use klos.Console.Write.{OnScreen}
use klos.Console.Scroll.{AreBytes}
use klos.Process.{Process, Processes}
use klos.Process.Chain.{IsList}
use klos.Process.Schedule.{states, first_running}
use klos.Process.Lives.{pr_getpid}
use klos.Paging.{PageHeap}
use klos.Paging.Fault.{Spaces, is_shared}
use klos.Paging.Map.{entry}
use klos.Symbol.{Symbols}
use klos.Exceptions.{Saved, switched, is_cexception}
use klos.Exceptions.Faults.{IsPlain, pause, ended, page_fault-leaves}

abbrev no_heap : PageHeap
no_heap = record {
  kalloc = λ n m. (7, m);
  kalloc_page = λ m. (8, m);
  kfree = λ p m. m;
  kfree_page = λ p m. m;
}

abbrev no_symbols : Symbols (List ℕ)
no_symbols = record { address = λ i. 0xFFFFFFFF; name = λ i. [] }

abbrev screen : Console
screen = record { text = λ i. 0; text_base = 0xB8000; x = 0; y = 24; ports = [] }

screen-AreBytes : AreBytes screen
unfolding AreBytes
screen-AreBytes q = omega arith

screen-OnScreen : OnScreen screen
screen-OnScreen = record { x_lt = omega arith; y_lt = omega arith; bytes = screen-AreBytes }

abbrev process : (pid next : ℕ) → Process
process pid next = record {
  pid = pid;
  state = 1;
  kernel_stack = 0;
  stack_pointer = 0;
  page_table = 0;
  pages = 0;
  syscall_mode = 0;
  next_process = next;
}

abbrev two : Processes
two = record {
  at = λ p. if p == 500 then process 1 600 else process 2 0;
  root = 500;
  current = 500;
  next_pid = 3;
}

two-IsList : IsList two (500 ∷ 600 ∷ [])
two-IsList = record {
  chain = (refl, (λ e. absurd (omega arith)), (refl, (λ e. absurd (omega arith)), refl));
  distinct = (refl, (refl, tt));
}

abbrev empty : Spaces
empty = record {
  paging = record {
    word = λ p i. 0;
    table = λ t. record { directory = 100; tables = 101; physical = 0x104000 };
    kernel = 0;
    active = 0;
    cr3 = 0x104000;
    interrupts = true;
  };
  processes = two;
  stacks = record { word = λ p. 0; hi_stack = 0xC1500000; lo_stack = 0xC1900000 };
  frame = λ p j. 0;
}

empty-IsPlain : IsPlain 0x5000 empty
unfolding is_shared entry
empty-IsPlain = record { own_directory = refl; own_page = refl }

abbrev saved : Saved
saved = record { content = λ i. 0; cr2 = 0x5000; dr = λ i. 0; word = λ p. 0 }

pid_small : pr_getpid two < 2 ^ 32
unfolding pr_getpid
pid_small = omega arith

to_the_other : ended (first_running (states (pause two)) (600 ∷ [])) ≡ switched 600
unfolding first_running ended update
to_the_other = refl

page_fault-leaves_example :
    (c : Console) × (is_cexception no_heap no_symbols 8 1 2 14 2 saved
        (record { console = screen; spaces = empty })
      ≡ some (
        ended (first_running (states (pause two)) (600 ∷ [])),
        record { console = c; spaces = record empty { processes = pause two } },
      ))
    × OnScreen c
page_fault-leaves_example =
    page_fault-leaves no_heap no_symbols 8 1 2 2 [] (600 ∷ []) saved
      (record { console = screen; spaces = empty }) empty-IsPlain two-IsList (omega arith)
      (omega arith) screen-OnScreen pid_small
