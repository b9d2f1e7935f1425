-- ===== src/Paging/Setup.antt =====
-- The first steps of src/kernel/paging.cpp: `setup_paging` and `setup_heap`.
use klos.Base.{ℕ, update, bit_and, bit_or}
use klos.Paging.{
  Paging, present, writable, user, addressmask, store, table_of, pg_pde_index, pg_pte_index,
}

-- `setup_paging`, with `pg_kernel_real` at the address `real`.
unfoldable pub setup_paging : (real page_directory page_tables : ℕ) → Paging → Paging
setup_paging real page_directory page_tables m = record m {
  table =
      update m.table real
        (record { directory = page_directory; tables = page_tables; physical = m.cr3 });
  kernel = real;
  active = real;
}

-- `(page & pte_addressmask) | pte_writable | pte_present`
abbrev pub heap_word : ℕ → ℕ
heap_word page = bit_or (bit_or (bit_and page addressmask) writable) present

-- `setup_heap`, for the two pages that `mm_page_allocate` gives.
unfoldable pub setup_heap : (heap_table first_page second_page : ℕ) → Paging → Paging
unfolding store
setup_heap heap_table first_page second_page m =
    let k = m.kernel in
    let heap = pg_pde_index 0xD0000000 in
    let in_directory = store (m.table k).directory heap (bit_or (heap_word first_page) user) m in
    let table_mapped =
      store (table_of in_directory k heap_table) (pg_pte_index heap_table) (heap_word first_page)
        in_directory in
    let with_table = store (table_mapped.table k).tables heap heap_table table_mapped in
    store (table_of with_table k 0xD0000000) (pg_pte_index 0xD0000000) (heap_word second_page)
      with_table
