-- ===== src/Paging/Fault/OwnExamples.antt =====
-- Two processes that share a page table after a fork.
use klos.Base.{
  ℕ, ◌+◌, ◌≡◌, refl, false, ◌&&◌, ◌||◌, ◌==◌, if◌then◌else◌, [], ◌∷◌, some, update, arith,
}
use klos.Process.{Process}
use klos.Paging.{Paging, PageHeap, pg_pde_index, table_of, store}
use klos.Paging.Extend.{Gives}
use klos.Paging.Fault.{Spaces, is_shared, is_copy, unshared, own_table}
use klos.Paging.Fault.Copies.{count, last_of, shares}
use klos.Paging.Fault.Tables.{protected}
use klos.Paging.Fault.Own.{TableShared, emptied, sharers, other, own_table-shares}

abbrev heap : PageHeap
heap = record {
  kalloc = λ n m. (7, m);
  kalloc_page = λ m. (120, m);
  kfree = λ p m. m;
  kfree_page = λ p m. m;
}

-- The directory and the pointers of the two processes are the pages 100 and 101, 110 and 111; both have the
-- page 102 as their first table, which maps 0x1000 to 0x7000.
abbrev tables : Paging
tables = record {
  word = λ p i.
      if (p == 100 || p == 110) && i == 0
      then 0x105205
      else if (p == 101 || p == 111) && i == 0
      then 102
      else if p == 102 && i == 1
      then 0x7007
      else 0;
  table = λ t.
      if t == 1
      then record { directory = 110; tables = 111; physical = 0x204000 }
      else record { directory = 100; tables = 101; physical = 0x104000 };
  kernel = 0;
  active = 0;
  cr3 = 0x104000;
  interrupts = false;
}

abbrev process : (table next : ℕ) → Process
process table next = record {
  pid = 0;
  state = 1;
  kernel_stack = 0;
  stack_pointer = 0;
  page_table = table;
  pages = 0;
  syscall_mode = 0;
  next_process = next;
}

abbrev spaces : Spaces
spaces = record {
  paging = tables;
  processes = record {
    at = λ p. if p == 500 then process 0 600 else process 1 0;
    root = 500;
    current = 500;
    next_pid = 2;
  };
  stacks = record { word = λ p. 0x300000; hi_stack = 0xC1500008; lo_stack = 0xC1900000 };
  frame = λ p j. p + j;
}

one_sharer : sharers 0x1000 (500 ∷ 600 ∷ []) spaces ≡ 1
unfolding count shares is_copy pg_pde_index
one_sharer = refl

second_tables : other 0x1000 (500 ∷ 600 ∷ []) spaces ≡ 1
unfolding last_of shares is_copy pg_pde_index
second_tables = refl

abbrev given : Paging
given = emptied 1 1 0x1000 tables

given-Gives : Gives heap 0 0x1000 120 given given
unfolding store update unshared pg_pde_index
given-Gives = record {
  given = refl;
  absent = refl;
  no_table = refl;
  unused = λ v e. ground arith;
  not_directory = λ e. absurd (omega arith);
  not_pointers = λ e. absurd (omega arith);
  apart = λ e. absurd (omega arith);
  tables_not_directory = λ v e. ground arith;
  tables_not_pointers = λ v e. ground arith;
}

spaces-TableShared : TableShared 0x1000 (500 ∷ 600 ∷ []) spaces heap 120 given
unfolding is_shared store update unshared pg_pde_index
spaces-TableShared = record {
  processes = record {
    chain = (refl, (λ e. absurd (omega arith)), (refl, (λ e. absurd (omega arith)), refl));
    distinct = (refl, (refl, tt));
  };
  shared_table = refl;
  some_sharer = rw one_sharer (λ e. absurd (omega arith));
  off = refl;
  gives = rw (one_sharer, second_tables) given-Gives;
  active = refl;
  kept = λ i. rw second_tables (ground arith);
  other_table = rw second_tables refl;
  not_page = rw second_tables (λ e. absurd (omega arith));
  not_directory = rw second_tables (λ e. absurd (omega arith));
  not_pointers = rw second_tables (λ e. absurd (omega arith));
  other_not_table = rw second_tables (λ e. absurd (omega arith));
  other_not_page = rw second_tables (λ e. absurd (omega arith));
  other_not_directory = rw second_tables (λ e. absurd (omega arith));
  other_not_pointers = rw second_tables (λ e. absurd (omega arith));
}

own_table-shares_example :
    (k : Paging) × (own_table heap 3 0x1000 spaces ≡ some (record spaces { paging = k }))
    × (table_of k 0 0x1000 ≡ 120)
    × (table_of k (other 0x1000 (500 ∷ 600 ∷ []) spaces) 0x1000
        ≡ table_of tables (other 0x1000 (500 ∷ 600 ∷ []) spaces) 0x1000)
    × (k.word 120 1
        ≡ protected (tables.word (table_of tables (other 0x1000 (500 ∷ 600 ∷ []) spaces) 0x1000) 1))
    × (k.word (table_of tables (other 0x1000 (500 ∷ 600 ∷ []) spaces) 0x1000) 1
        ≡ protected (tables.word (table_of tables (other 0x1000 (500 ∷ 600 ∷ []) spaces) 0x1000) 1))
unfolding pg_pde_index
own_table-shares_example =
    own_table-shares heap 3 120 0x1000 1 (500 ∷ 600 ∷ []) spaces given (omega arith) (omega arith)
      (rw second_tables (omega arith)) spaces-TableShared
