-- ===== src/Heap.antt =====
-- The kernel heap of src/kernel/kalloc.cpp: a circular list of free blocks in ascending order of address,
-- whose headers lie in the heap itself. Addresses are bytes and sizes count headers of 8 bytes.
pub mod Ring
pub mod Link
pub mod Free
pub mod Take
pub mod Search
pub mod Alloc
pub mod Grow
pub mod Report
pub mod Exhausted
pub mod RoundTrip
pub mod Pages
pub mod Aligned
pub mod Whole
pub mod PageAlloc
pub mod PageFree
pub mod Lost
mod Examples
mod PageExamples
use klos.Base.{
  ℕ, zero, suc, ◌+◌, ◌-◌, ◌*◌, ◌/◌, ◌%◌, ◌^◌, Bool, true, false, ◌&&◌, ◌||◌, ltb, leb, ◌==◌,
  if◌then◌else◌, u32, sub32, update,
}
use klos.Base.Run.{Run, ok, fault, out_of_fuel, ◌>>=◌}

abbrev pub null : ℕ
null = 0

-- `sizeof(struct heap_block_hdr_t)`
abbrev pub header : ℕ
header = 8

abbrev pub kernel_heap_start : ℕ
kernel_heap_start = 0xD0000000

-- `p + n` on a pointer to a header.
abbrev pub advance : ℕ → ℕ → ℕ
advance p n = u32 (p + header * n)

-- The headers by their addresses, and `kernel_heap_free`.
pub record Blocks : Type 0 where
  pub next_block : ℕ → ℕ
  pub block_size : ℕ → ℕ
  pub free : ℕ

abbrev pub set_next : ℕ → ℕ → Blocks → Blocks
set_next p q h = record h { next_block = update h.next_block p q }

abbrev pub set_size : ℕ → ℕ → Blocks → Blocks
set_size p n h = record h { block_size = update h.block_size p n }

-- The loop of `kfree`: the block behind which `bp` belongs.
unfoldable pub find_place : ℕ → Blocks → ℕ → ℕ → Run ℕ
find_place zero h bp p = out_of_fuel
find_place (suc fuel) h bp p =
    let next = h.next_block p in
    let rest = find_place fuel h bp next in
    if ltb p bp && ltb bp next
    then ok p
    else if leb next p && (ltb p bp || ltb bp next)
    then ok p
    else rest

-- Links `bp` to what follows `p`, or absorbs that.
unfoldable pub join_next : ℕ → ℕ → Blocks → Blocks
join_next bp p h =
    let next = h.next_block p in
    if advance bp (h.block_size bp) == next
    then set_next bp (h.next_block next) (set_size bp (u32 (h.block_size bp + h.block_size next)) h)
    else set_next bp next h

-- Links `p` to `bp`, or lets it absorb that.
unfoldable pub join_prev : ℕ → ℕ → Blocks → Blocks
join_prev bp p h =
    if advance p (h.block_size p) == bp
    then set_next p (h.next_block bp) (set_size p (u32 (h.block_size p + h.block_size bp)) h)
    else set_next p bp h

unfoldable pub link_free : ℕ → ℕ → Blocks → Blocks
unfolding join_next join_prev
link_free bp p h = record (join_prev bp p (join_next bp p h)) { free = p }

-- With no list yet the loop reads `NULL->next_block`.
unfoldable pub kfree : ℕ → ℕ → Blocks → Run Blocks
unfolding find_place link_free
kfree fuel address h = if h.free == null then fault else do
  p ← find_place fuel h (sub32 address header) h.free
  ok (link_free (sub32 address header) p h)

-- The free list, `kernel_heap_alloc` and the rest of the kernel.
pub record Heap (S : Type 0) : Type 0 where
  pub blocks : Blocks
  pub alloc : ℕ
  pub pages : S

-- What the heap takes from the rest of the kernel: physical pages, and the mapping of one into the
-- kernel's page table. `S` is the state of those parts. Where that table has no part for the address yet,
-- `pg_map` takes one from the heap by `kalloc_page`, so it works on the heap too.
pub record PageSource (S : Type 0) : Type 0 where
  pub mm_page_allocate : S → ℕ × S
  pub pg_map : (virt physical supervisor : ℕ) → Heap S → Heap S

-- `if((prevp = kernel_heap_free) == NULL) { ... }` with the static header at `base`.
unfoldable pub init_free : ℕ → Blocks → Blocks
init_free base h =
    if h.free == null then record (set_next base base (set_size base 0 h)) { free = base } else h

-- What `kalloc` does with a block `p` behind `prevp` that is large enough: the block it hands out, and
-- the list.
unfoldable pub take_block : (prevp p nunits : ℕ) → Blocks → ℕ × Blocks
take_block prevp p nunits h =
    if h.block_size p == nunits
    then (p, record (set_next prevp (h.next_block p) h) { free = prevp })
    else (
      advance p (h.block_size p - nunits),
      record (set_size (advance p (h.block_size p - nunits)) nunits
          (set_size p (h.block_size p - nunits) h)) { free = prevp },
    )

-- `(size + sizeof(struct heap_block_hdr_t) - 1) / sizeof(struct heap_block_hdr_t) + 1`
unfoldable pub units : ℕ → ℕ
units size = u32 (size + 7) / header + 1

module _ {S : Type 0} (source : PageSource S) where
  open source use {mm_page_allocate, pg_map}

  -- The next page of the heap as a block of 0x200 units.
  abbrev pub heap_end : Heap S → ℕ
  heap_end s = u32 (kernel_heap_start + s.alloc * 0x1000)

  unfoldable pub kbrk : ℕ → Heap S → Run (Bool × Heap S)
  kbrk rounds s =
      let (page, pages) = mm_page_allocate s.pages in
      if page == 0 then ok (false, record s { pages = pages }) else do
        let n = pg_map (heap_end s) page 1 (record s { pages = pages })
        h ←
            kfree rounds (advance (heap_end n) 1)
              (set_next (heap_end n) null (set_size (heap_end n) 0x200 n.blocks))
        ok (true, record n { blocks = h; alloc = u32 (n.alloc + 1) })

  -- The loop of `kalloc`, where a return of 0 stands for NULL. `rounds` is the fuel of `kfree`.
  unfoldable pub alloc_loop : (rounds fuel nunits prevp p : ℕ) → Heap S → Run (ℕ × Heap S)
  unfolding kbrk take_block
  alloc_loop rounds zero nunits prevp p s = out_of_fuel
  alloc_loop rounds (suc fuel) nunits prevp p s =
      let (q, h) = take_block prevp p nunits s.blocks in
      let again = λ (t : Heap S). alloc_loop rounds fuel nunits p (t.blocks.next_block p) t in
      if leb nunits (s.blocks.block_size p)
      then ok (advance q 1, record s { blocks = h })
      else if p == s.blocks.free
      then (do (grown, t) ← kbrk rounds s; if grown then again t else ok (null, t))
      else again s

  unfoldable pub kalloc : (base rounds fuel size : ℕ) → Heap S → Run (ℕ × Heap S)
  unfolding init_free units alloc_loop
  kalloc base rounds fuel size s =
      let h = init_free base s.blocks in
      alloc_loop rounds fuel (units size) h.free (h.next_block h.free) (record s { blocks = h })
