-- ===== src/Paging/Fault/Resolve.antt =====
-- What `pg_resolve_fault` of src/kernel/paging.cpp does for a page that processes share.
use klos.Base.{
  ℕ, ◌*◌, ◌/◌, ◌^◌, ◌<◌, ◌≡◌, ◌≢◌, ◌∈◌, refl, true, false, some, ◌&&◌, ltb, ◌==◌, if◌then◌else◌,
  List, length, bit_and, arith,
}
use klos.Memory.{mm_page_allocate}
use klos.Process.{null}
use klos.Process.Chain.{IsList}
use klos.Paging.{PageHeap, table_of, directory_entry, page_word, addressmask, pde_copyonwrite}
use klos.Paging.Map.{entry}
use klos.Paging.Fault.{
  Spaces, pager_page, pte_copyonwrite, is_shared, give_page, own_table, own_page, pg_resolve_fault,
}
use klos.Paging.Fault.Places.{IsPlace, IsApart}
use klos.Paging.Fault.Copies.{
  count, last_of, shares, copies_loop-count, last_of-IsSharer, shares-other,
}
use klos.Paging.Fault.Private.{new_page, supervisor_of, CanCopy, give_page-entry, give_page-frame}

-- A fault at virt, in a page that is marked copy-on-write in a table of the active process's own: the
-- table is there, and so is the pager's; the page tables of the other processes are apart from the
-- active ones; the next free page is below 4 GB and is not the page that faulted.
pub record CopyOnWrite (virt : ℕ) (xs : List ℕ) (s : Spaces) : Type 0 where
  pub processes : IsList s.processes xs
  pub own_directory :
      is_shared pde_copyonwrite (directory_entry s.paging s.paging.active virt) ≡ false
  pub shared_page : is_shared pte_copyonwrite (entry s.paging.active virt s.paging) ≡ true
  pub place : IsPlace s.paging.active virt s.paging
  pub window : IsPlace s.paging.active pager_page s.paging
  pub not_window : virt / 4096 ≢ pager_page / 4096
  pub fits : new_page s < 2 ^ 32
  pub fresh : bit_and (entry s.paging.active virt s.paging) addressmask ≢ new_page s / 4096 * 4096
  pub apart :
      (x : ℕ)
      → x ∈ xs
      → x ≢ s.processes.current
      → IsApart s.paging.active (table_of s.paging (s.processes.at x).page_table virt) s.paging

module _ (heap : PageHeap) (fuel virt : ℕ) (xs : List ℕ) (s : Spaces) (hvirt : virt < 2 ^ 32)
    (enough : length xs < fuel) (c : CopyOnWrite virt xs s) where
  abbrev d : ℕ
  d = entry s.paging.active virt s.paging

  abbrev entry_of : ℕ → ℕ
  entry_of t = entry t virt s.paging

  abbrev sharers : ℕ
  sharers = count (shares entry_of d s.processes) xs

  abbrev last : ℕ
  last = last_of (shares entry_of d s.processes) null xs

  abbrev other : ℕ
  other = (s.processes.at last).page_table

  can_copy : CanCopy sharers other virt s
  can_copy = record {
    place = c.place;
    window = c.window;
    not_window = c.not_window;
    fits = c.fits;
    fresh = c.fresh;
    apart = λ e.
        let sharer = last_of-IsSharer (shares entry_of d s.processes) null xs (ground (arith, e)) in
        c.apart last sharer.0 (shares-other entry_of d s.processes last sharer.1);
  }

  resolved : pg_resolve_fault heap fuel virt s ≡ some (true, give_page heap sharers other virt d s)
  unfolding pg_resolve_fault own_table own_page entry
  resolved =
      rw
        (
          c.own_directory,
          c.shared_page,
          copies_loop-count fuel entry_of d null s.processes xs c.processes enough,
        )
        refl

-- With more rounds than there are processes, a fault at a page that the active table marks
-- copy-on-write is resolved, where the active process has its own page table for it, the tables for the
-- page and for the pager's window serve no other part of the address space, the other processes'
-- tables are apart from the active ones, and the next free page is below 4 GB and is not the page
-- that faulted. That page is taken and mapped for virt with the rights that the page had and write
-- access; at every other address the active tables are as before, but for the pager's window, which
-- is unmapped; the new page has the words of the shared one, and the words of no other page are
-- changed.
pub pg_resolve_fault-private :
    (heap : PageHeap) (fuel virt : ℕ) (xs : List ℕ) (s : Spaces) (v q j : ℕ)
    → virt < 2 ^ 32
    → v < 2 ^ 32
    → length xs < fuel
    → CopyOnWrite virt xs s
    → (t : Spaces) × (pg_resolve_fault heap fuel virt s ≡ some (true, t))
      × (t.stacks ≡ (mm_page_allocate s.stacks).1)
      × (entry s.paging.active v t.paging ≡ (
          if v / 4096 == virt / 4096
          then page_word (new_page s) (supervisor_of (entry s.paging.active virt s.paging))
          else if v / 4096 == pager_page / 4096
          then 0
          else entry s.paging.active v s.paging))
      × (t.frame q j ≡ (
          if (q == new_page s / 4096 * 4096) && ltb j 1024
          then s.frame (bit_and (entry s.paging.active virt s.paging) addressmask) j
          else s.frame q j))
unfolding give_page
pg_resolve_fault-private heap fuel virt xs s v q j hvirt hv enough c =
    let able = can_copy heap fuel virt xs s hvirt enough c in
    let n = sharers heap fuel virt xs s hvirt enough c in
    let from = other heap fuel virt xs s hvirt enough c in
    let word = entry s.paging.active virt s.paging in
    (
      give_page heap n from virt word s,
      resolved heap fuel virt xs s hvirt enough c,
      refl,
      give_page-entry heap n from virt word s hvirt able v hv,
      give_page-frame heap n from virt word s hvirt able q j,
    )
