-- ===== src/Paging/Fault/Examples.antt =====
-- Two processes that share a page after a fork.
use klos.Base.{
  ℕ, ◌+◌, ◌*◌, ◌/◌, ◌≡◌, refl, true, ◌&&◌, ◌||◌, ltb, ◌==◌, if◌then◌else◌, [], ◌∷◌, some, bit_and,
  arith,
}
use klos.Memory.{mm_page_allocate}
use klos.Process.{Process}
use klos.Paging.{Paging, PageHeap, pg_pde_index, pg_pte_index, page_word, addressmask}
use klos.Paging.Map.{entry}
use klos.Paging.Fault.{Spaces, pager_page, is_shared, pg_resolve_fault}
use klos.Paging.Fault.Places.{IsPlace, IsApart}
use klos.Paging.Fault.Private.{new_page, supervisor_of}
use klos.Paging.Fault.Resolve.{CopyOnWrite, pg_resolve_fault-private}

abbrev no_heap : PageHeap
no_heap = record {
  kalloc = λ n m. (7, m);
  kalloc_page = λ m. (8, m);
  kfree = λ p m. m;
  kfree_page = λ p m. m;
}

-- The directory, the pointers and the tables of the two processes are the pages 100 to 103 and 110 to 112;
-- both map 0x1000 to 0x7000, read-only and copy-on-write.
abbrev words : ℕ → ℕ → ℕ
words p i =
    if p == 100 && (i == 0 || i == 768)
    then 0x105007
    else if p == 101 && i == 0
    then 102
    else if p == 101 && i == 768
    then 103
    else if p == 111 && i == 0
    then 112
    else if (p == 102 || p == 112) && i == 1
    then 0x7105
    else 0

abbrev tables : Paging
tables = record {
  word = words;
  table = λ t.
      if t == 1
      then record { directory = 110; tables = 111; physical = 0x204000 }
      else record { directory = 100; tables = 101; physical = 0x104000 };
  kernel = 0;
  active = 0;
  cr3 = 0x104000;
  interrupts = true;
}

abbrev process : (table next : ℕ) → Process
process table next = record {
  pid = 0;
  state = 1;
  kernel_stack = 0;
  stack_pointer = 0;
  page_table = table;
  pages = 0;
  syscall_mode = 0;
  next_process = next;
}

abbrev spaces : Spaces
spaces = record {
  paging = tables;
  processes = record {
    at = λ p. if p == 500 then process 0 600 else process 1 0;
    root = 500;
    current = 500;
    next_pid = 2;
  };
  stacks = record { word = λ p. 0x300000; hi_stack = 0xC1500008; lo_stack = 0xC1900000 };
  frame = λ p j. p + j;
}

index : pg_pde_index 0x1000 ≡ 0
unfolding pg_pde_index
index = refl

pager_index : pg_pde_index pager_page ≡ 768
unfolding pg_pde_index
pager_index = refl

page_index : pg_pte_index 0x1000 ≡ 1
unfolding pg_pte_index
page_index = refl

faulting_word : entry 0 0x1000 tables ≡ 0x7105
unfolding entry
faulting_word = rw (index, page_index) refl

place : IsPlace 0 0x1000 tables
place = record {
  owns = record {
    other_parts = λ v e. ground (arith, index);
    not_pointers = λ e. ground (arith, index);
  };
  is_present = rw index (λ e. absurd (omega arith));
  not_directory = λ e. ground (arith, index);
}

window : IsPlace 0 pager_page tables
window = record {
  owns = record {
    other_parts = λ v e. ground (arith, pager_index);
    not_pointers = λ e. ground (arith, pager_index);
  };
  is_present = rw pager_index (λ e. absurd (omega arith));
  not_directory = λ e. ground (arith, pager_index);
}

free_page : new_page spaces ≡ 0x300000
unfolding mm_page_allocate
free_page = refl

other-IsApart : IsApart 0 112 tables
other-IsApart = record {
  not_directory = λ e. absurd (omega arith);
  not_pointers = λ e. absurd (omega arith);
  not_table = λ v e. ground arith;
}

spaces-CopyOnWrite : CopyOnWrite 0x1000 (500 ∷ 600 ∷ []) spaces
unfolding is_shared
spaces-CopyOnWrite = record {
  processes = record {
    chain = (refl, (λ e. absurd (omega arith)), (refl, (λ e. absurd (omega arith)), refl));
    distinct = (refl, (refl, tt));
  };
  own_directory = rw index refl;
  shared_page = rw faulting_word refl;
  place = place;
  window = window;
  not_window = λ e. absurd (omega arith);
  fits = rw free_page (omega arith);
  fresh = rw (faulting_word, free_page) (λ e. absurd (omega arith));
  apart = λ x i h. let other : x ≡ 600 = ground (arith, i, h) in rw (other, index) other-IsApart;
}

pg_resolve_fault-private_example :
    (t : Spaces) × (pg_resolve_fault no_heap 3 0x1000 spaces ≡ some (true, t))
    × (t.stacks ≡ (mm_page_allocate spaces.stacks).1)
    × (entry 0 0x1234 t.paging
        ≡ page_word (new_page spaces) (supervisor_of (entry 0 0x1000 tables)))
    × (t.frame 0x300000 5 ≡ (
        if (0x300000 == new_page spaces / 4096 * 4096) && ltb 5 1024
        then spaces.frame (bit_and (entry 0 0x1000 tables) addressmask) 5
        else spaces.frame 0x300000 5))
pg_resolve_fault-private_example =
    pg_resolve_fault-private no_heap 3 0x1000 (500 ∷ 600 ∷ []) spaces 0x1234 0x300000 5
      (omega arith) (omega arith) (omega arith) spaces-CopyOnWrite
