-- ===== src/Heap/Lost.antt =====
-- The block that `kalloc_page` of src/kernel/kalloc.cpp takes out of the list together with a page.
use klos.Base.{ℕ, ◌+◌, ◌*◌, ◌/◌, ◌≤◌, ◌<◌, ◌^◌, ◌≡◌, ◌||◌, List, ◌∷◌, arith, update}
use klos.Heap.{Blocks, set_next, set_size}
use klos.Heap.Ring.{Up, within, covered, Up-move, covered-frame}
use klos.Heap.Pages.{aligned_address, overhead, room, take_page}
use klos.Heap.Whole.{AllAligned, bounds, over, left, whole_units}

-- In a well-formed list whose blocks start at multiples of eight, a block `b` that ends with the first
-- page that starts inside it, behind its own start, gives this page. The block `y` that follows `b` is then no longer in the list: the
-- list goes from `b` to what followed `y`, and the bytes that were free are those that still are, those of the page and those of `y`.
pub take_page-drops :
    (base limit b q y : ℕ) (h : Blocks) (ys : List ℕ)
    → limit ≤ 2 ^ 32
    → Up h base limit q (b ∷ y ∷ ys)
    → AllAligned (b ∷ y ∷ ys)
    → 0 < overhead b
    → room b h ≡ 0x1000
    → (k : Blocks) × (take_page q b h ≡ (aligned_address b, k))
      × Up k base limit q (b ∷ ys)
      × ((a : ℕ)
          → covered h (b ∷ y ∷ ys) a ≡ (
              covered k (b ∷ ys) a
              || within (aligned_address b) 0x200 a
              || within y (h.block_size y) a))
unfolding take_page update
take_page-drops base limit b q y h ys fits up eights some exact =
    let pos : 0 < b = omega arith in
    let big : 0x1000 ≤ room b h = omega (arith, exact) in
    let place = bounds base limit b q h (y ∷ ys) fits pos up eights big in
    let before = over base limit b q h (y ∷ ys) fits pos up eights big in
    let rest = left base limit b q h (y ∷ ys) fits pos up eights big in
    let units = whole_units base limit b q h (y ∷ ys) fits pos up eights big in
    let low = overhead b / 8 in
    let k = set_next b (h.next_block y) (set_size b low h) in
    let lower : b + 8 * low ≡ aligned_address b = omega (arith, before, place, units) in
    let upper : aligned_address b + 0x1000 ≡ b + 8 * h.block_size b =
      omega (arith, rest, before, place) in
    let low_pos : 0 < low = omega (arith, units) in
    let next : h.next_block b ≡ y = (up.3).0 in
    (
      k,
      ground (arith, next),
      (
        ground arith,
        ground arith,
        ground arith,
        Up-move h k base limit y b ys (up.3).3 (ground arith) (ground arith) (λ a l. ground arith)
            (λ a l. ground arith),
      ),
      λ a. ground (arith, covered-frame h k base limit y ys a (up.3).3 (λ c l. ground arith)),
    )
