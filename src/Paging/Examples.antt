-- ===== src/Paging/Examples.antt =====
-- A small address space, with one page table for the lowest 4 MB.
use klos.Base.{
  ℕ, ◌+◌, ◌/◌, ◌≡◌, refl, sym, subst, false, true, ◌&&◌, ◌==◌, if◌then◌else◌, update, arith,
}
use klos.Paging.{
  Paging, PageHeap, new_table, pg_copy_user_page_directory, pg_create_user_page_directory, pg_map,
  page_word, pg_pde_index,
}
use klos.Paging.Map.{entry, Owns, IsPresent, entry-pg_map}
use klos.Paging.Extend.{Gives, Keeps, entry-pg_map_new}
use klos.Paging.Spaces.{Apart, Shares, pg_copy_user_page_directory-Shares}
use klos.Paging.Created.{IsFresh, pg_create_user_page_directory-IsFresh}

-- A heap that gives the pages 200, 201, ..., counted in a word of page 1.
abbrev page_heap : PageHeap
page_heap = record {
  kalloc = λ n m. (7, m);
  kalloc_page =
      λ m. (m.word 1 0, record m { word = update m.word 1 (update (m.word 1) 0 (m.word 1 0 + 1)) });
  kfree = λ p m. m;
  kfree_page = λ p m. m;
}

abbrev words : ℕ → ℕ → ℕ
words p i =
    if p == 100 && i == 0
    then 0x105007
    else (if p == 101 && i == 0 then 102 else (if p == 1 then 200 else 0))

abbrev space : Paging
space = record {
  word = words;
  table = λ t. record { directory = 100; tables = 101; physical = 0x104000 };
  kernel = 0;
  active = 0;
  cr3 = 0x104000;
  interrupts = true;
}

index : pg_pde_index 0x1000 ≡ 0
unfolding pg_pde_index
index = refl

space-Owns : Owns 0 0x1000 space
space-Owns = record {
  other_parts = λ v e. ground (arith, index);
  not_pointers = λ e. ground (arith, index);
}

space-IsPresent : IsPresent 0 0x1000 space
unfolding pg_pde_index
space-IsPresent e = absurd (omega arith)

entry-pg_map_example :
    entry 0 0x2000 (pg_map page_heap 0 0x1000 0x7000 0 space)
    ≡ (if 0x2000 / 4096 == 0x1000 / 4096 then page_word 0x7000 0 else entry 0 0x2000 space)
entry-pg_map_example =
    entry-pg_map page_heap 0 0x1000 0x7000 0 space 0x2000 (omega arith) (omega arith)
      space-IsPresent space-Owns

-- The space after the heap has given page 200.
abbrev given : Paging
given = record space { word = update words 1 (update (words 1) 0 201); interrupts = false }

given-Gives : Gives page_heap 0 0x400000 200 space given
unfolding update pg_pde_index
given-Gives = record {
  given = refl;
  absent = refl;
  no_table = refl;
  unused = λ v e. ground arith;
  not_directory = λ e. ground arith;
  not_pointers = λ e. ground arith;
  apart = λ e. ground arith;
  tables_not_directory = λ v e. ground arith;
  tables_not_pointers = λ v e. ground arith;
}

given-Keeps : Keeps 0 space given
unfolding update
given-Keeps = record { tables = λ v. ground arith; words = λ v i. ground arith }

entry-pg_map_new_example : entry 0 0x401000 (pg_map page_heap 0 0x400000 0x9000 1 space) ≡ (
    if 0x401000 / 4096 == 0x400000 / 4096
    then 0x9003
    else (if pg_pde_index 0x401000 == pg_pde_index 0x400000 then 0 else entry 0 0x401000 space))
entry-pg_map_new_example =
    entry-pg_map_new page_heap 0 0x400000 0x9000 1 200 space given 0x401000 (omega arith)
      (omega arith) (omega arith) given-Gives given-Keeps

-- The state in which the structure of a new address space, at 7, has been allocated.
abbrev made : Paging
made = (new_table page_heap space).1

made-Apart : Apart (made.table 0) (made.table 7)
unfolding new_table update
made-Apart = record {
  ad_at = λ e. ground arith;
  ad_bd = λ e. ground arith;
  ad_bt = λ e. ground arith;
  at_bd = λ e. ground arith;
  at_bt = λ e. ground arith;
  bd_bt = λ e. ground arith;
}

made-kernel : made.kernel ≡ 0
unfolding new_table
made-kernel = refl

new-space : new_table page_heap space ≡ (7, made)
unfolding new_table
new-space = refl

pg_copy_user_page_directory-Shares_example :
    Shares (made.table 0) (made.table 7) 0 made ((pg_copy_user_page_directory page_heap 0 space).1)
    × (((pg_copy_user_page_directory page_heap 0 space).0 ≡ 7)
        × ((pg_copy_user_page_directory page_heap 0 space).1.interrupts ≡ true))
pg_copy_user_page_directory-Shares_example =
    pg_copy_user_page_directory-Shares page_heap 0 7 0 space made new-space made-Apart (omega arith)

pg_create_user_page_directory-IsFresh_example :
    IsFresh
      (made.table made.kernel)
      (made.table 7)
      0
      made
      ((pg_create_user_page_directory page_heap space).1)
    × (((pg_create_user_page_directory page_heap space).0 ≡ 7)
        × ((pg_create_user_page_directory page_heap space).1.interrupts ≡ true))
pg_create_user_page_directory-IsFresh_example =
    pg_create_user_page_directory-IsFresh page_heap 7 0 space made new-space
      (subst (λ k. Apart (made.table k) (made.table 7)) (sym made-kernel) made-Apart) (omega arith)
