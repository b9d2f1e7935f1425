-- ===== src/Heap/Pages.antt =====
-- Whole pages of the heap of src/kernel/kalloc.cpp: `kalloc_page`, `kfree_page` and the report.
use klos.Base.{ℕ, zero, suc, ◌+◌, ◌-◌, ◌*◌, ◌/◌, ltb, leb, ◌==◌, if◌then◌else◌, u32, sub32}
use klos.Base.Run.{Run, ok, out_of_fuel, ◌>>=◌}
use klos.Heap.{
  null, header, advance, Blocks, set_next, set_size, kfree, init_free, PageSource, Heap, heap_end,
}

-- `(address / alignment) * alignment`, or the next page boundary where that is below the address.
unfoldable pub aligned_address : ℕ → ℕ
aligned_address address =
    let low = address / 0x1000 * 0x1000 in if ltb low address then u32 (low + 0x1000) else low

unfoldable pub overhead : ℕ → ℕ
unfolding aligned_address
overhead p = sub32 (aligned_address p) p

-- The bytes of the block from the page boundary on, `nbytes`.
unfoldable pub room : ℕ → Blocks → ℕ
unfolding overhead
room p h =
    if ltb (overhead p) (u32 (h.block_size p * header))
    then u32 (h.block_size p * header) - overhead p
    else 0

-- What `kalloc_page` does with a block that has a whole page: the page, and the list.
unfoldable pub take_page : (prevp p : ℕ) → Blocks → ℕ × Blocks
unfolding room
take_page prevp p h =
    let page = aligned_address p in
    let nbytes = room p h in
    let before = ltb 0 (overhead p) in
    let cut = if before then set_size p (overhead p / header) h else h in
    let at = if before then p else prevp in
    let after = u32 (page + 0x1000) in
    let linked =
      set_next at after
        (set_next after (h.next_block p) (set_size after ((nbytes - 0x1000) / header) cut)) in
    let unlinked = set_next at (cut.next_block (cut.next_block at)) cut in
    (page, if ltb 0x1000 nbytes then linked else unlinked)

-- `kfree_page`; `rounds` is the fuel of `kfree`.
unfoldable pub kfree_page : (rounds page : ℕ) → Blocks → Run Blocks
kfree_page rounds page h = kfree rounds (advance page 1) (set_next page 0 (set_size page 0x200 h))

module _ {S : Type 0} (source : PageSource S) where
  open source use {mm_page_allocate, pg_map}

  -- The end of `kalloc_page`: a new page that does not go into the list; 0 stands for NULL.
  unfoldable pub extend_page : Heap S → ℕ × Heap S
  extend_page s =
      let (page, pages) = mm_page_allocate s.pages in
      let n = pg_map (heap_end source s) page 1 (record s { pages = pages }) in
      if page == 0
      then (null, record s { pages = pages })
      else (heap_end source n, record n { alloc = u32 (n.alloc + 1) })

  unfoldable pub page_loop : (fuel prevp p : ℕ) → Heap S → Run (ℕ × Heap S)
  unfolding take_page extend_page
  page_loop zero prevp p s = out_of_fuel
  page_loop (suc fuel) prevp p s =
      let (page, h) = take_page prevp p s.blocks in
      let rest = page_loop fuel p (s.blocks.next_block p) s in
      if leb 0x1000 (room p s.blocks)
      then ok (page, record s { blocks = h })
      else if p == s.blocks.free
      then ok (extend_page s)
      else rest

  unfoldable pub kalloc_page : (base fuel : ℕ) → Heap S → Run (ℕ × Heap S)
  unfolding page_loop
  kalloc_page base fuel s =
      let h = init_free base s.blocks in
      page_loop fuel h.free (h.next_block h.free) (record s { blocks = h })

  -- The bytes of the free blocks from p on to the rover.
  unfoldable pub info_loop : (fuel p allocated : ℕ) → Blocks → Run ℕ
  info_loop zero p allocated h = out_of_fuel
  info_loop (suc fuel) p allocated h =
      let sum = u32 (allocated + h.block_size p * header) in
      let rest = info_loop fuel (h.next_block p) sum h in if p == h.free then ok sum else rest

  -- `allocated`, `total` and the heap.
  unfoldable pub kh_get_memory_info : (base fuel : ℕ) → Heap S → Run ((ℕ × ℕ) × Heap S)
  unfolding info_loop
  kh_get_memory_info base fuel s = do
    let h = init_free base s.blocks
    sum ← info_loop fuel (h.next_block h.free) 0 h
    ok ((sub32 (u32 (s.alloc * 0x1000)) sum, u32 (s.alloc * 0x1000)), record s { blocks = h })
