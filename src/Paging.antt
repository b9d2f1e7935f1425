-- ===== src/Paging.antt =====
-- The page directories and tables of src/kernel/paging.cpp. A directory, an array of pointers to page
-- tables and a page table are pages of 1024 words, found by their virtual addresses.
pub mod Entry
pub mod Map
pub mod Extend
pub mod Flags
pub mod Spaces
pub mod Created
pub mod Setup
pub mod Report
pub mod Fault
mod Examples
use klos.Base.{
  ℕ, zero, suc, ◌+◌, ◌-◌, ◌*◌, ◌/◌, ◌^◌, Bool, true, false, ◌&&◌, ltb, ◌==◌, if◌then◌else◌, u32,
  update, upto, bit_and, bit_or, ◌>>>◌,
}

abbrev pub null : ℕ
null = 0

-- The flags that the code uses of `enum pte_flags` and `enum pde_flags`.
abbrev pub present : ℕ
present = 0x01

abbrev pub writable : ℕ
writable = 0x02

abbrev pub user : ℕ
user = 0x04

abbrev pub pde_copyonwrite : ℕ
pde_copyonwrite = 0x200

abbrev pub addressmask : ℕ
addressmask = 0xFFFFF000

-- `struct pg_table_t`: the addresses of a directory and of its array of page tables.
pub record Table : Type 0 where
  pub directory : ℕ
  pub tables : ℕ
  pub physical : ℕ

-- The words of the pages by page and index, the structures by their addresses, the globals
-- `pg_kernel` and `pg_active`, the register cr3 and the interrupt flag.
pub record Paging : Type 0 where
  pub word : ℕ → ℕ → ℕ
  pub table : ℕ → Table
  pub kernel : ℕ
  pub active : ℕ
  pub cr3 : ℕ
  pub interrupts : Bool

-- `page[i] = v`
unfoldable pub store : ℕ → ℕ → ℕ → Paging → Paging
store page i v m = record m { word = update m.word page (update (m.word page) i v) }

unfoldable pub pg_pde_index : ℕ → ℕ
pg_pde_index virt = bit_and (virt >>> 22) 0x3FF

unfoldable pub pg_pte_index : ℕ → ℕ
pg_pte_index virt = bit_and (virt >>> 12) 0x3FF

-- `table->directory[ pg_pde_index(virt) ]` and `table->tables[ pg_pde_index(virt) ]`
abbrev pub directory_entry : Paging → ℕ → ℕ → ℕ
directory_entry m t virt = m.word (m.table t).directory (pg_pde_index virt)

abbrev pub table_of : Paging → ℕ → ℕ → ℕ
table_of m t virt = m.word (m.table t).tables (pg_pde_index virt)

unfoldable pub pg_get_physical : ℕ → ℕ → Paging → ℕ
pg_get_physical t virt m = bit_and (m.word (table_of m t virt) (pg_pte_index virt)) addressmask

unfoldable pub pg_activate_table : ℕ → Paging → Paging
pg_activate_table t m =
    let new = if t == null then m.kernel else t in
    if m.active == t then m else record m { cr3 = (m.table new).physical; active = new }

-- The 1024 words of a page table set to 0.
unfoldable pub clear_page : ℕ → Paging → Paging
unfolding upto store
clear_page page m = upto 1024 (λ i. store page i 0) m

-- `supervisor ? 0 : flag`
abbrev pub unless : ℕ → ℕ → ℕ
unless supervisor flag = if supervisor == 0 then flag else 0

-- The heap, as far as paging calls it: `kalloc` and `kalloc_page` give an address and may change
-- the page tables of the kernel.
pub record PageHeap : Type 0 where
  pub kalloc : ℕ → Paging → ℕ × Paging
  pub kalloc_page : Paging → ℕ × Paging
  pub kfree : ℕ → Paging → Paging
  pub kfree_page : ℕ → Paging → Paging

abbrev pub directory_word : ℕ → ℕ → ℕ
directory_word supervisor physical =
    bit_or (bit_or (bit_or present writable) (unless supervisor user))
      (bit_and physical addressmask)

-- `(physical & pte_addressmask) | (supervisor?0:pte_userpage) | pte_writable | pte_present`
unfoldable pub page_word : ℕ → ℕ → ℕ
page_word physical supervisor =
    bit_or (bit_or (bit_or (bit_and physical addressmask) (unless supervisor user)) writable)
      present

-- `pg_setup_pagetable` with the table at addresses that the caller has chosen.
unfoldable pub pg_setup_pagetable_at : (t virt virt_tbl phys_tbl supervisor : ℕ) → Paging → Paging
unfolding store
pg_setup_pagetable_at t virt virt_tbl phys_tbl supervisor m =
    let i = pg_pde_index virt in
    let linked =
      store (m.table t).directory i (directory_word supervisor phys_tbl)
        (store (m.table t).tables i virt_tbl m) in
    let n = if table_of m t virt == null then linked else m in clear_page (table_of n t virt) n

-- `pg_remove_pagetable`: the physical address of the table that is taken out, and the state.
unfoldable pub pg_remove_pagetable : (t virt : ℕ) → Paging → ℕ × Paging
unfolding store
pg_remove_pagetable t virt m = (
  bit_and (directory_entry m t virt) addressmask,
  store (m.table t).tables (pg_pde_index virt) null
      (store (m.table t).directory (pg_pde_index virt) 0 m),
)

-- `pg_unmap`; the early return does not restore the flags.
unfoldable pub pg_unmap : (t virt : ℕ) → Paging → Paging
unfolding store
pg_unmap t virt m =
    if bit_and (directory_entry m t virt) addressmask == 0
    then record m { interrupts = false }
    else store (table_of m t virt) (pg_pte_index virt) 0 m

-- The user tables that are present become read-only and copy-on-write.
unfoldable pub mark_shared : (src : Table) → ℕ → Paging → Paging
unfolding store
mark_shared src i m =
    let d = m.word src.directory i in
    if ltb i 0x300 && (bit_and d user == user && bit_and d present == present)
    then store src.directory i (bit_or (bit_and d 0xFFFFFFFD) pde_copyonwrite) m
    else m

-- One round of the loop of `pg_copy_user_page_directory`, over the directories `from` and `to`.
unfoldable pub copy_entry : (src copy : Table) → ℕ → Paging → Paging
unfolding mark_shared store
copy_entry src copy i m =
    let marked = mark_shared src i m in
    let placed = store copy.directory i (marked.word src.directory i) marked in
    store copy.tables i (placed.word src.tables i) placed

-- One round of the two loops of `pg_create_user_page_directory`.
unfoldable pub create_entry : (kernel copy : Table) → ℕ → Paging → Paging
unfolding store
create_entry kernel copy i m =
    if ltb i 0x300
    then store copy.tables i null (store copy.directory i 0 m)
    else (let placed = store copy.directory i (m.word kernel.directory i) m in
        store copy.tables i (placed.word kernel.tables i) placed)

module _ (heap : PageHeap) where
  open heap use {kalloc, kalloc_page, kfree, kfree_page}

  unfoldable pub pg_setup_pagetable : (t virt supervisor : ℕ) → Paging → Paging
  unfolding store pg_get_physical
  pg_setup_pagetable t virt supervisor m =
      let i = pg_pde_index virt in
      let (page, got) = kalloc_page m in
      let filled = store (got.table t).tables i page got in
      let linked =
        store (filled.table t).directory i
          (directory_word supervisor
            (pg_get_physical filled.active (table_of filled t virt) filled))
          filled in
      let n = if table_of m t virt == null then linked else m in clear_page (table_of n t virt) n

  unfoldable pub pg_map : (t virt physical supervisor : ℕ) → Paging → Paging
  unfolding pg_setup_pagetable page_word
  pg_map t virt physical supervisor m =
      let off = record m { interrupts = false } in
      let n =
        if bit_and (directory_entry m t virt) addressmask == 0
        then pg_setup_pagetable t virt supervisor off
        else off in
      record (store (table_of n t virt) (pg_pte_index virt) (page_word physical supervisor) n) {
        interrupts = m.interrupts;
      }

  -- The structure, the directory and the array of a new address space.
  unfoldable pub new_table : Paging → ℕ × Paging
  unfolding pg_get_physical
  new_table m =
      let (t, m₁) = kalloc 12 (record m { interrupts = false }) in
      let (directory, m₂) = kalloc_page m₁ in
      let (tables, m₃) = kalloc_page m₂ in
      (
        t,
        record m₃ {
          table = update m₃.table t (record {
            directory = directory;
            tables = tables;
            physical = pg_get_physical m₃.active directory m₃;
          });
        },
      )

  unfoldable pub pg_copy_user_page_directory : ℕ → Paging → ℕ × Paging
  pg_copy_user_page_directory src m =
      let (t, n) = new_table m in
      (
        t,
        record (upto 0x400 (copy_entry (n.table src) (n.table t)) n) { interrupts = m.interrupts },
      )

  unfoldable pub pg_create_user_page_directory : Paging → ℕ × Paging
  pg_create_user_page_directory m =
      let (t, n) = new_table m in
      (
        t,
        record (upto 0x400 (create_entry (n.table n.kernel) (n.table t)) n) {
          interrupts = m.interrupts;
        },
      )

  pub pg_free_user_page_directory : ℕ → Paging → Paging
  pg_free_user_page_directory t m =
      kfree t (kfree_page (m.table t).directory (kfree_page (m.table t).tables m))
