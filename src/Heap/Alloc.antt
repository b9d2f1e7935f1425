-- ===== src/Heap/Alloc.antt =====
-- `kalloc`: the search for a block, and what the free list is afterwards.
use klos.Base.{
  ℕ, suc, ◌+◌, ◌*◌, ◌≤◌, ◌<◌, ◌≡◌, ◌∙◌, Bool, true, false, ◌||◌, List, arith, length, leb, ◌==◌,
  ◌∈◌,
}
use klos.Base.Run.{Run, ok}
use klos.Heap.{Blocks, Heap, PageSource, advance, take_block, units, alloc_loop, kalloc}
use klos.Heap.Ring.{within, covered, IsHeap, Up-above}
use klos.Heap.Free.{IsAllocated}
use klos.Heap.Take.{before, take_at}
use klos.Heap.Search.{any, search_all}

-- The block has `n` units; some block has.
abbrev pub fits : ℕ → Blocks → ℕ → Bool
fits n h y = leb n (h.block_size y)

unfoldable pub any_fit : ℕ → Blocks → List ℕ → Bool
unfolding any
any_fit n h ys = any (fits n h) ys

module _ {S : Type 0} (source : PageSource S) (base limit n rounds : ℕ) (s : Heap S) where
  -- What `kalloc` returns for the block `b` behind `a`.
  abbrev pub finish : ℕ → ℕ → Run (ℕ × Heap S)
  finish a b = let (q, k) = take_block a b n s.blocks in ok (advance q 1, record s { blocks = k })

  abbrev pub loop : ℕ → ℕ → ℕ → Run (ℕ × Heap S)
  loop fuel prevp p = alloc_loop source rounds fuel n prevp p s

  pub loop_on :
      (fuel q y : ℕ)
      → leb n (s.blocks.block_size y) ≡ false
      → (y == s.blocks.free) ≡ false
      → loop (suc fuel) q y ≡ loop fuel y (s.blocks.next_block y)
  unfolding alloc_loop
  loop_on fuel q y small on = rw (small, on)

  pub loop_hit : (fuel q y : ℕ) → fits n s.blocks y ≡ true → loop (suc fuel) q y ≡ finish q y
  unfolding alloc_loop
  loop_hit fuel q y here = rw here (ground arith)

  search :
      (fuel : ℕ) (ys : List ℕ)
      → IsHeap base limit s.blocks ys
      → 0 < n
      → any_fit n s.blocks ys ≡ true
      → 2 * length ys + 1 ≤ fuel
      → (b : ℕ) × (b ∈ ys)
        × (fits n s.blocks b ≡ true)
        × (loop fuel s.blocks.free (s.blocks.next_block s.blocks.free)
            ≡ finish (before b base ys) b)
  unfolding any_fit
  search fuel ys v some fit enough =
      search_all base limit s.blocks (fits n s.blocks) loop finish loop_hit loop_on fuel ys v
        (ground (arith, v.base_empty)) fit enough

module _ {S : Type 0} (source : PageSource S) {base limit : ℕ} {s : Heap S} {ys : List ℕ} where
  -- On a well-formed heap with a block that is large enough, and with fuel for twice the length of
  -- the list, `kalloc` ends without asking for a page and returns the address behind a header. The
  -- heap stays well-formed with no more free blocks, the block with that header is in use and has the units asked for, and
  -- the bytes that were free are those that still are and, apart from them, those of that block.
  pub kalloc-IsHeap :
      (rounds fuel size : ℕ)
      → IsHeap base limit s.blocks ys
      → any_fit (units size) s.blocks ys ≡ true
      → 2 * length ys + 1 ≤ fuel
      → (ptr : ℕ) × (k : Blocks) × (zs : List ℕ) × (kalloc source base rounds fuel size s
          ≡ ok (advance ptr 1, record s { blocks = k }))
        × IsHeap base limit k zs
        × IsAllocated base limit ptr k zs
        × (length zs ≤ length ys)
        × (k.block_size ptr ≡ units size)
        × ((a : ℕ) → covered s.blocks ys a ≡ (covered k zs a || within ptr (units size) a))
  unfolding kalloc
  kalloc-IsHeap rounds fuel size v fit enough =
      let n = units size in
      let n_pos : 0 < n = omega arith in
      let (b, m, big, run) = search source base limit n rounds s fuel ys v n_pos fit enough in
      let le : n ≤ s.blocks.block_size b = ground (arith, big) in
      let t = take_at base limit n b base s.blocks ys v.limit_fits n_pos v.ring m le in
      let low = Up-above s.blocks base limit base b ys v.ring m in
      let nonnull : (s.blocks.free == 0) ≡ false =
        ground (arith, Up-above s.blocks base limit base s.blocks.free ys v.ring) in
      (
        t.ptr,
        t.k,
        t.zs,
        rw nonnull (run ∙ rw t.run),
        record {
          base_pos = v.base_pos;
          base_below = v.base_below;
          limit_fits = v.limit_fits;
          base_empty = t.kept ∙ v.base_empty;
          ring = t.up;
          rover = t.rover;
        },
        record {
          above = omega (arith, t.above);
          full = omega (arith, t.sized);
          inside = omega (arith, t.sized, t.inside);
          apart = rw t.sized t.apart;
        },
        t.short,
        t.sized,
        t.cover,
      )
