-- ===== src/Heap/Exhausted.antt =====
-- `kalloc` when no block is large enough and no page is left, and the sizes it rounds to.
use klos.Base.{
  ℕ, suc, ◌+◌, ◌-◌, ◌*◌, ◌≤◌, ◌<◌, ◌≡◌, ◌∙◌, ap, inl, inr, false, List, [], ◌∷◌, arith, length, leb,
  ◌==◌, Bool-cases, ◌∈◌, ◌∉◌,
}
use klos.Base.Run.{ok}
use klos.Heap.{Blocks, Heap, PageSource, null, kbrk, units, alloc_loop, kalloc}
use klos.Heap.Ring.{IsHeap, Up-above}
use klos.Heap.Search.{any, last, after, after-Up, length-after, after-none, search_miss, search_to}
use klos.Heap.Alloc.{any_fit, fits, loop, loop_on, loop_hit, finish}

module _ {S : Type 0} (source : PageSource S) (base limit n rounds : ℕ) (s : Heap S) where
  open source use {mm_page_allocate}

  loop_refused :
      (more a : ℕ)
      → leb n (s.blocks.block_size s.blocks.free) ≡ false
      → (mm_page_allocate s.pages).0 ≡ 0
      → loop source base limit n rounds s (suc more) a s.blocks.free
        ≡ ok (null, record s { pages = (mm_page_allocate s.pages).1 })
  unfolding alloc_loop kbrk
  loop_refused more a small e = ground arith

small_of_mem :
    (n b : ℕ) (h : Blocks) (ys : List ℕ)
    → any_fit n h ys ≡ false
    → b ∈ ys
    → leb n (h.block_size b) ≡ false
unfolding any_fit any
small_of_mem n b h [] none m = cc
small_of_mem n b h (y ∷ ys) none m = ground (arith, small_of_mem n b h ys)

module _ {S : Type 0} (source : PageSource S) {base limit : ℕ} {s : Heap S} {ys : List ℕ} where
  open source use {mm_page_allocate}

  -- On a well-formed heap in which no block is large enough, where no page is to be had, and with
  -- fuel for twice the length of the list, `kalloc` ends and returns NULL, and the heap is as it was.
  pub kalloc-null :
      (rounds fuel size : ℕ)
      → IsHeap base limit s.blocks ys
      → any_fit (units size) s.blocks ys ≡ false
      → (mm_page_allocate s.pages).0 ≡ 0
      → 2 * length ys + 2 ≤ fuel
      → kalloc source base rounds fuel size s
        ≡ ok (null, record s { pages = (mm_page_allocate s.pages).1 })
  unfolding kalloc any_fit
  kalloc-null rounds fuel size v none page enough =
      let n = units size in
      let f = s.blocks.free in
      let n_pos : 0 < n = omega arith in
      let nonnull : (f == 0) ≡ false =
        ground (arith, Up-above s.blocks base limit base f ys v.ring) in
      let rest = after f base ys in
      let up = after-Up base limit f s.blocks base ys v.ring v.rover in
      let short = length-after f base ys in
      let absent : f ∉ rest = ground (arith, Up-above s.blocks base limit f f rest up) in
      let small : any_fit n s.blocks rest ≡ false = after-none (fits n s.blocks) f base ys none in
      let run = loop source base limit n rounds s in
      let stop = finish source base limit n rounds s in
      let hit = loop_hit source base limit n rounds s in
      let on = loop_on source base limit n rounds s in
      let at_end = λ (more : ℕ) (e : fuel ≡ length rest + more).
        search_miss base limit s.blocks (fits n s.blocks) run stop hit on fuel more f rest up small
          absent e in
      let more = fuel - length rest - 1 in
      let a = last f rest in
      let empty : leb n (s.blocks.block_size base) ≡ false = ground arith in
      rw nonnull (elim (Bool-cases (base == f)) [
        | inl here ↦
            let e : base ≡ f = ground arith in
            at_end (suc more) (omega arith)
            ∙ ap (λ x. run (suc more) a x) e
            ∙ loop_refused source base limit n rounds s more a (rw (← e) empty) page
        | inr off ↦
            let m : f ∈ ys = ground arith in
            let (c, left, to) =
              search_to base limit s.blocks (fits n s.blocks) run stop hit on more base ys v.ring
                none m (omega arith) in
            at_end (suc more) (omega arith)
            ∙ on more a base empty off
            ∙ to
            ∙ loop_refused source base limit n rounds s left c (small_of_mem n f s.blocks ys none m)
                page
      ])
