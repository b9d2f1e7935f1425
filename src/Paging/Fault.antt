-- ===== src/Paging/Fault.antt =====
-- `pg_resolve_fault` of src/kernel/paging.cpp: a write to memory that processes share gets a copy.
pub mod Copies
pub mod Frames
pub mod Private
pub mod Resolve
pub mod Tables
pub mod Own
mod Examples
mod OwnExamples
pub mod Places
use klos.Base.{
  ℕ, zero, suc, ◌+◌, ◌-◌, ◌*◌, ◌/◌, Bool, true, false, ◌&&◌, not, Option, none, some, ◌==◌,
  if◌then◌else◌, update, upto, bit_and, bit_or, ◌>>=◌,
}
use klos.Memory.{FrameStacks, mm_page_allocate}
use klos.Process.{Process, Processes}
use klos.Paging.{
  Paging, PageHeap, null, present, writable, user, pde_copyonwrite, addressmask, store,
  directory_entry, table_of, pg_pde_index, pg_pte_index, pg_get_physical, pg_setup_pagetable,
  pg_map, pg_unmap,
}

abbrev pub pte_copyonwrite : ℕ
pte_copyonwrite = 0x100

-- Where the pager maps the new page while it is filled.
abbrev pub pager_page : ℕ
pager_page = 0xC03E0000

-- The page tables, the processes, the free pages, and the contents of physical pages by address and
-- index.
pub record Spaces : Type 0 where
  pub paging : Paging
  pub processes : Processes
  pub stacks : FrameStacks
  pub frame : ℕ → ℕ → ℕ

-- `(d & present) && !(d & writable) && (d & copyonwrite)` for the mark of a directory or a table.
unfoldable pub is_shared : (mark d : ℕ) → Bool
is_shared mark d =
    bit_and d present == present && (bit_and d writable == 0 && bit_and d mark == mark)

-- Whether c is another process's entry for the memory of entry d.
unfoldable pub is_copy : (c d proc current : ℕ) → Bool
is_copy c d proc current =
    bit_and c present == present
    && (not (proc == current) && bit_and c addressmask == bit_and d addressmask)

-- The loop over the processes: `numCopies` and `last`. `entry_of` reads the entry of a page table.
unfoldable pub copies_loop :
    (fuel : ℕ) (entry_of : ℕ → ℕ) (d proc : ℕ) → Processes → (n last : ℕ) → Option (ℕ × ℕ)
unfolding is_copy
copies_loop zero entry_of d proc t n last = none
copies_loop (suc fuel) entry_of d proc t n last =
    let p = t.at proc in
    let copy = is_copy (entry_of p.page_table) d proc t.current in
    let rest =
      copies_loop fuel entry_of d p.next_process t (if copy then n + 1 else n)
        (if copy then proc else last) in
    if proc == null then some (n, last) else rest

-- `(c & (0xFFFFFFFF - copyonwrite)) | writable`
unfoldable pub unshared : (mark c : ℕ) → ℕ
unshared mark c = bit_or (bit_and c (0xFFFFFFFF - mark)) writable

-- What a table's word becomes when two tables share its page.
unfoldable pub marked : ℕ → ℕ
marked c =
    if bit_and c writable == writable
    then bit_or (bit_and c (0xFFFFFFFF - writable)) pte_copyonwrite
    else c

-- One round of the copying of a page table: both tables get the word.
unfoldable pub share_word : (last active virt : ℕ) → ℕ → Paging → Paging
unfolding store marked
share_word last active virt i m =
    let c = marked (m.word (table_of m last virt) i) in
    let kept = store (table_of m last virt) i c m in store (table_of kept active virt) i c kept

-- `dst[i] = src[i]`, for the frames that the active tables map the two pages to.
unfoldable pub copy_frame : (active src dst : ℕ) → Paging → (ℕ → ℕ → ℕ) → ℕ → ℕ → ℕ
unfolding pg_get_physical upto
copy_frame active src dst m frame =
    upto 1024
      (λ i f.
        update f (pg_get_physical active dst m)
          (update (f (pg_get_physical active dst m)) i (f (pg_get_physical active src m) i)))
      frame

-- The table's entry of the only other process becomes writable.
unfoldable pub freed : (n other virt : ℕ) → Paging → Paging
unfolding unshared
freed n other virt m =
    let i = pg_pte_index virt in
    let c = m.word (table_of m other virt) i in
    if n == 1 && bit_and c pte_copyonwrite == pte_copyonwrite
    then store (table_of m other virt) i (unshared pte_copyonwrite c) m
    else m

module _ (heap : PageHeap) where
  -- The directory's entry: where it is shared, the active process gets a page table of its own.
  -- `none` stands for running out of fuel, and for the use of `last` when no other process shares.
  unfoldable pub own_table : (fuel virt : ℕ) → Spaces → Option Spaces
  own_table fuel virt s =
      let m = s.paging in
      let d = directory_entry m m.active virt in
      let i = pg_pde_index virt in
      if not (is_shared pde_copyonwrite d) then some s else (do
        (n, last) ←
            copies_loop fuel (λ t. directory_entry m t virt) d s.processes.root s.processes 0 null
        let other = (s.processes.at last).page_table
        let c = directory_entry m other virt
        let freed =
            if n == 1 && bit_and c pde_copyonwrite == pde_copyonwrite
            then store (m.table other).directory i (unshared pde_copyonwrite c) m
            else m
        let emptied =
            store (freed.table freed.active).directory i 0x0
              (store (freed.table freed.active).tables i null freed)
        let supervisor = if bit_and d user == 0 then 1 else 0
        let made = pg_setup_pagetable heap emptied.active virt supervisor emptied
        let copied = upto 1024 (share_word other made.active virt) made
        if n == 0 then none else some (record s { paging = copied }))

  -- What follows the loop over the processes for the table's entry d: `last` has the page tables
  -- at `other`.
  unfoldable pub give_page : (n other virt d : ℕ) → Spaces → Spaces
  give_page n other virt d s =
      let m = s.paging in
      let alone = freed n other virt m in
      let (physical, stacks) = mm_page_allocate s.stacks in
      let windowed = pg_map heap alone.active pager_page physical 1 alone in
      let frame = copy_frame windowed.active virt pager_page windowed s.frame in
      let unmapped = pg_unmap windowed.active virt (pg_unmap windowed.active pager_page windowed) in
      let supervisor = if bit_and d user == 0 then 1 else 0 in
      let mapped = pg_map heap unmapped.active virt physical supervisor unmapped in
      record s { paging = mapped; stacks = stacks; frame = frame }

  -- The table's entry: where it is shared, the active process gets a page of its own.
  unfoldable pub own_page : (fuel virt : ℕ) → Spaces → Option (Bool × Spaces)
  unfolding is_shared copies_loop give_page
  own_page fuel virt s =
      let m = s.paging in
      let i = pg_pte_index virt in
      let d = m.word (table_of m m.active virt) i in
      if not (is_shared pte_copyonwrite d) then some (false, s) else (do
        (n, last) ←
            copies_loop fuel (λ t. m.word (table_of m t virt) i) d s.processes.root s.processes 0
              null
        some (true, give_page n (s.processes.at last).page_table virt d s))

  unfoldable pub pg_resolve_fault : (fuel virt : ℕ) → Spaces → Option (Bool × Spaces)
  unfolding own_table own_page
  pg_resolve_fault fuel virt s = own_table fuel virt s >>= λ t. own_page fuel virt t
