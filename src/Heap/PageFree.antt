-- ===== src/Heap/PageFree.antt =====
-- `kfree_page` of src/kernel/kalloc.cpp, alone and after `kalloc_page`.
use klos.Base.{
  ℕ, ◌+◌, ◌*◌, ◌≤◌, ◌<◌, ◌≡◌, refl, ◌≢◌, ◌∙◌, ◌||◌, true, List, [], ◌∷◌, arith, length, update,
}
use klos.Base.Run.{ok}
use klos.Heap.{Blocks, Heap, PageSource, set_next, set_size}
use klos.Heap.Ring.{Up, within, covered, Apart, IsHeap}
use klos.Heap.Free.{IsAllocated, kfree-IsHeap}
use klos.Heap.Pages.{kfree_page, kalloc_page}
use klos.Heap.PageAlloc.{PagesFit, any_page, kalloc_page-IsHeap}

-- A header written in a block that is apart from the list.
module _ (base limit e n : ℕ) (h g : Blocks) (full : 0 < n)
    (nexts : (a : ℕ) → a ≢ e → g.next_block a ≡ h.next_block a)
    (sizes : (a : ℕ) → a ≢ e → g.block_size a ≡ h.block_size a) where
  Up-clear :
      (q : ℕ) (ys : List ℕ) → Up h base limit q ys → q ≢ e → Apart h e n ys → Up g base limit q ys
  Up-clear q [] up ne out = (nexts q ne ∙ up.0, omega (arith, sizes q ne))
  Up-clear q (y ∷ ys) up ne out =
      let apart : y ≢ e = λ i. absurd (ground (arith, out.0, up)) in
      (
        nexts q ne ∙ up.0,
        omega (arith, sizes q ne),
        omega (arith, sizes y apart),
        Up-clear y ys up.3 apart out.1,
      )

  Apart-clear : (q : ℕ) (ys : List ℕ) → Up h base limit q ys → Apart h e n ys → Apart g e n ys
  Apart-clear q [] up out = tt
  Apart-clear q (y ∷ ys) up out =
      let apart : y ≢ e = λ i. absurd (ground (arith, out.0, up)) in
      (ground (arith, out.0, sizes y apart), Apart-clear y ys up.3 out.1)

  covered-clear :
      (q a : ℕ) (ys : List ℕ)
      → Up h base limit q ys
      → Apart h e n ys
      → covered g ys a ≡ covered h ys a
  covered-clear q a [] up out = refl
  covered-clear q a (y ∷ ys) up out =
      let apart : y ≢ e = λ i. absurd (ground (arith, out.0, up)) in
      rw (sizes y apart, covered-clear y a ys up.3 out.1) refl

module _ {base limit : ℕ} {h : Blocks} {ys : List ℕ} where
  -- On a well-formed heap, and with enough fuel, `kfree_page` of a page inside the heap that overlaps no
  -- free block, whatever its bytes are, ends in a well-formed heap whose free bytes are those that were free and
  -- those of the page.
  kfree_page-IsHeap :
      (rounds page : ℕ)
      → IsHeap base limit h ys
      → base < page
      → page + 0x1000 ≤ limit
      → Apart h page 0x200 ys
      → 2 * length ys + 2 < rounds
      → (k : Blocks) × (zs : List ℕ) × (kfree_page rounds page h ≡ ok k)
        × IsHeap base limit k zs
        × ((a : ℕ) → covered k zs a ≡ (covered h ys a || within page 0x200 a))
  unfolding kfree_page update
  kfree_page-IsHeap rounds page v above inside out enough =
      let g = set_next page 0 (set_size page 0x200 h) in
      let nexts : (a : ℕ) → a ≢ page → g.next_block a ≡ h.next_block a = λ a ne. ground arith in
      let sizes : (a : ℕ) → a ≢ page → g.block_size a ≡ h.block_size a = λ a ne. ground arith in
      let size : g.block_size page ≡ 0x200 = ground arith in
      let some : 0 < 0x200 = omega arith in
      let not_base : base ≢ page = λ e. absurd (omega arith) in
      let w : IsHeap base limit g ys = record {
        base_pos = v.base_pos;
        base_below = v.base_below;
        limit_fits = v.limit_fits;
        base_empty = sizes base not_base ∙ v.base_empty;
        ring = Up-clear base limit page 0x200 h g some nexts sizes base ys v.ring not_base out;
        rover = v.rover;
      } in
      let b : IsAllocated base limit page g ys = record {
        above = above;
        full = omega (arith, size);
        inside = omega (arith, size);
        apart = rw size (Apart-clear base limit page 0x200 h g some nexts sizes base ys v.ring out);
      } in
      let (k, zs, run, heap, cover, _) = kfree-IsHeap rounds page w b enough in
      let same = covered-clear base limit page 0x200 h g some nexts sizes base in
      (k, zs, run, heap, λ a. ground (arith, cover a, size, same a ys v.ring out))

module _ {S : Type 0} (source : PageSource S) {base limit : ℕ} (s : Heap S) {ys : List ℕ} where
  -- Under the conditions of `kalloc_page-IsHeap`, and with enough fuel for `kfree`, freeing the page that
  -- `kalloc_page` has just returned by `kfree_page` gives a well-formed heap in which the same bytes are free as before.
  pub kfree_page-kalloc_page :
      (rounds fuel : ℕ)
      → IsHeap base limit s.blocks ys
      → PagesFit s.blocks ys
      → any_page s.blocks ys ≡ true
      → 2 * length ys + 4 < rounds
      → 2 * length ys + 1 ≤ fuel
      → (page : ℕ) × (t : Heap S) × (k : Blocks) × (zs : List ℕ) × (kalloc_page source base fuel s
          ≡ ok (page, t))
        × (kfree_page rounds page t.blocks ≡ ok k)
        × IsHeap base limit k zs
        × ((a : ℕ) → covered k zs a ≡ covered s.blocks ys a)
  kfree_page-kalloc_page rounds fuel v fit some more enough =
      let (page, t, ts, run, w, _, above, inside, short, apart, cover) =
        kalloc_page-IsHeap source {s = s} fuel v fit some enough in
      let (k, zs, back, x, joined) =
        kfree_page-IsHeap rounds page w above inside apart (omega (arith, short)) in
      (page, record s { blocks = t }, k, zs, run, back, x, λ a. ground (arith, joined a, cover a))
