-- ===== src/Interrupt/Fork/Examples.antt =====
-- The first process forks.
use klos.Base.{ℕ, ◌+◌, ◌≡◌, ◌≢◌, refl, inr, Option, none, some, List, [], update, arith}
use klos.Console.{Console}
use klos.Console.Write.{OnScreen}
use klos.Console.Scroll.{AreBytes}
use klos.Process.{Process, pr_inject_process, pr_free_pid, pr_state_running, set_next}
use klos.Process.Lives.{Services, Kernel, pr_get_current, pr_fork_process, new_process}
use klos.Symbol.{Symbols}
use klos.Interrupt.Handlers.{switched, Calls, return_code, fork_call}
use klos.Interrupt.Fork.{AreApart, fork_call-codes}

-- Memory is given in steps of 64 KB; the page tables are left as they are.
abbrev services : Services ℕ
services = record {
  kalloc = λ n s. (s, s + 0x10000);
  kfree = λ p s. s;
  pg_create_user_page_directory = λ s. (7, s);
  pg_copy_user_page_directory = λ t s. (8, s);
  pg_free_user_page_directory = λ t s. s;
  pg_activate_table = λ t s. s;
}

abbrev process : Process
process = record {
  pid = 1;
  state = 1;
  kernel_stack = 0xD0100000;
  stack_pointer = 0xD0100F80;
  page_table = 5;
  pages = 0;
  syscall_mode = 0;
  next_process = 0;
}

abbrev kernel : Kernel ℕ
kernel = record {
  processes = record { at = λ p. process; root = 500; current = 500; next_pid = 2 };
  word = λ p. 0;
  esp0 = 0;
  ss0 = 0x10;
  esp = 0;
  rest = 0xD0000000;
}

abbrev kernel_of : Option (ℕ × Kernel ℕ) → Kernel ℕ
kernel_of none = kernel
kernel_of (some (p, k)) = k

abbrev forked : Kernel ℕ
forked = kernel_of (pr_fork_process services 3 500 kernel)

forked_run : pr_fork_process services 3 500 kernel ≡ some (0xD0000000, forked)
unfolding pr_fork_process new_process pr_inject_process pr_free_pid
forked_run = refl

forked_current : forked.processes.current ≡ 500
unfolding pr_fork_process new_process pr_inject_process pr_free_pid set_next
forked_current = refl

parent_stack : (forked.processes.at 500).kernel_stack ≡ 0xD0100000
unfolding pr_fork_process new_process pr_inject_process pr_free_pid set_next update
parent_stack = refl

child_stack : (forked.processes.at 0xD0000000).kernel_stack ≡ 0xD0010000
unfolding pr_fork_process new_process pr_inject_process pr_free_pid set_next update
child_stack = refl

child_pid : (forked.processes.at 0xD0000000).pid ≡ 2
unfolding pr_fork_process new_process pr_inject_process pr_free_pid set_next update
child_pid = refl

current_set : forked.processes.current ≢ 0
current_set = rw forked_current (λ e. absurd (omega arith))

current_other : forked.processes.current ≢ 0xD0000000
current_other = rw forked_current (λ e. absurd (omega arith))

fork_of_current :
    pr_fork_process services 3 (pr_get_current kernel.processes) kernel ≡ some (0xD0000000, forked)
unfolding pr_get_current
fork_of_current = forked_run

stacks-AreApart :
    AreApart
      (forked.processes.at forked.processes.current).kernel_stack
      (forked.processes.at 0xD0000000).kernel_stack
stacks-AreApart =
    rw (forked_current, parent_stack, child_stack)
      (record { a_fits = omega arith; b_fits = omega arith; apart = inr (omega arith) })

abbrev symbols : Symbols (List ℕ)
symbols = record { address = λ i. 0xFFFFFFFF; name = λ i. [] }

abbrev screen : Console
screen = record { text = λ i. 0; text_base = 0xB8000; x = 0; y = 24; ports = [] }

screen-AreBytes : AreBytes screen
unfolding AreBytes
screen-AreBytes q = omega arith

screen-OnScreen : OnScreen screen
screen-OnScreen = record { x_lt = omega arith; y_lt = omega arith; bytes = screen-AreBytes }

abbrev calls : Calls ℕ
calls = record { console = screen; kernel = kernel; ports = []; time = 0 }

fork_call-codes_example :
    (s' : Calls ℕ) × (fork_call services symbols 8 1 3 calls ≡ some (switched 0xD0000000, s'))
    × (s'.kernel.word (return_code forked.processes.current forked.processes)
        ≡ (forked.processes.at 0xD0000000).pid)
    × (s'.kernel.word (return_code 0xD0000000 forked.processes) ≡ 0)
    × (s'.kernel.processes.current ≡ 0xD0000000)
    × ((s'.kernel.processes.at 0xD0000000).state ≡ pr_state_running)
fork_call-codes_example =
    fork_call-codes services symbols 8 1 3 calls 0xD0000000 forked fork_of_current
      (λ e. absurd (omega arith)) current_set current_other stacks-AreApart (omega arith)
      screen-OnScreen
