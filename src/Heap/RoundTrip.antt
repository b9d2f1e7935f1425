-- ===== src/Heap/RoundTrip.antt =====
-- What `kalloc` rounds a size to, and `kalloc` followed by `kfree`.
use klos.Base.{ℕ, ◌+◌, ◌*◌, ◌≤◌, ◌<◌, ◌^◌, ◌≡◌, true, List, arith, length}
use klos.Base.Run.{ok}
use klos.Heap.{Blocks, Heap, PageSource, advance, units, kalloc, kfree}
use klos.Heap.Ring.{covered, IsHeap}
use klos.Heap.Free.{kfree-IsHeap}
use klos.Heap.Alloc.{any_fit, kalloc-IsHeap}

-- Up to seven bytes below 2^32, the units of a size hold a header and that many bytes, and less than
-- one unit more.
units_bounds :
    (size : ℕ) → size + 7 < 2 ^ 32 → (size + 8 ≤ 8 * units size) × (8 * units size < size + 16)
unfolding units
units_bounds size h = omega arith

-- A size within seven bytes of 2^32 wraps round: `kalloc` looks for one unit, which is the header
-- alone.
units_wrap : (size : ℕ) → size < 2 ^ 32 → 2 ^ 32 ≤ size + 7 → units size ≡ 1
unfolding units
units_wrap size lt wrap = omega arith

module _ {S : Type 0} (source : PageSource S) {base limit : ℕ} (s : Heap S) {ys : List ℕ} where
  -- On a well-formed heap with a block that is large enough, and with enough fuel, freeing what
  -- `kalloc` has just returned gives a well-formed heap in which the same bytes are free as before.
  pub kfree-kalloc :
      (rounds fuel size : ℕ)
      → IsHeap base limit s.blocks ys
      → any_fit (units size) s.blocks ys ≡ true
      → 2 * length ys + 2 < rounds
      → 2 * length ys + 1 ≤ fuel
      → (ptr : ℕ) × (t : Heap S) × (k : Blocks) × (zs : List ℕ) × (kalloc source base rounds fuel
            size s
          ≡ ok (ptr, t))
        × (kfree rounds ptr t.blocks ≡ ok k)
        × IsHeap base limit k zs
        × ((a : ℕ) → covered k zs a ≡ covered s.blocks ys a)
  kfree-kalloc rounds fuel size v fit more enough =
      let (p, t, ts, run, w, b, short, sized, cover) =
        kalloc-IsHeap source rounds fuel size v fit enough in
      let (k, zs, back, x, joined, _) = kfree-IsHeap rounds p w b (omega (arith, short)) in
      (
        advance p 1,
        record s { blocks = t },
        k,
        zs,
        run,
        back,
        x,
        λ a. ground (arith, joined a, cover a, sized),
      )
