-- ===== src/Heap/PageAlloc.antt =====
-- `kalloc_page` of src/kernel/kalloc.cpp: the search for a block with a whole page, and what the free
-- list is afterwards.
use native.Mathlib.Decide.{dec_lt}
use klos.Base.{
  ℕ, suc, ◌+◌, ◌*◌, ◌%◌, ◌≤◌, ◌<◌, ◌^◌, ◌≡◌, ◌≢◌, ◌∙◌, ◌⊎◌, inl, inr, Bool, true, false, ◌||◌, List,
  [], ◌∷◌, arith, subst, sym, ap, length, leb, ◌==◌, Bool-cases, ◌∈◌,
}
use klos.Base.Run.{Run, ok}
use klos.Heap.{Blocks, Heap, PageSource, init_free}
use klos.Heap.Ring.{Up, within, covered, Apart, IsHeap, Up-above, Up-past}
use klos.Heap.Take.{before, before-mem}
use klos.Heap.Search.{any, search_all}
use klos.Heap.Pages.{aligned_address, overhead, room, take_page, page_loop, kalloc_page}
use klos.Heap.Whole.{AllAligned, HasPage, PageTaken, page_first, page_only, page_inside}

-- Any block of the list that has a whole page can give it.
page_at :
    (base limit b q : ℕ) (h : Blocks) (ys : List ℕ)
    → limit ≤ 2 ^ 32
    → Up h base limit q ys
    → AllAligned ys
    → b ∈ ys
    → HasPage b h
    → PageTaken base limit b q h ys
unfolding before
page_at base limit b q h [] fits up eights m has = cc
page_at base limit b q h (y ∷ ys) fits up eights m has = elim (Bool-cases (y == b)) [
  | inl here ↦
      let e : y ≡ b = ground arith in
      let up' : Up h base limit q (b ∷ ys) = rw e at up in
      let eights' : AllAligned (b ∷ ys) = rw e at eights in
      let pos : 0 < b = omega arith in
      rw e (elim (Bool-cases (overhead b == 0)) [
        | inl none ↦ elim (dec_lt 0x1000 (room b h)) [
          | yes more ↦
              page_first base limit b q h ys fits pos up' eights' has.big (ground arith) more
          | no g ↦
              page_only base limit b q h ys fits pos up' eights' has.big (ground arith)
                (omega (arith, has.big))
        ]
        | inr some ↦
            page_inside base limit b q h ys fits pos up' eights' has.big (ground arith)
              (ground (arith, has.clean))
      ])
  | inr on ↦
      let m' : b ∈ ys = ground arith in
      let r = page_at base limit b y h ys fits up.3 eights.1 m' has in
      let past = Up-past h base limit y b ys up.3 m' in
      let low = Up-past h base limit q (before b y ys) (y ∷ ys) up (before-mem b y ys) in
      let same = r.frame q (λ e. absurd (omega arith)) (inl (omega arith)) in
      let kept = r.kept in
      record {
        zs = y ∷ r.zs;
        k = r.k;
        run = rw on r.run;
        up = (same.0 ∙ up.0, omega (arith, same.1), omega (arith, kept), r.up);
        cover = λ a. ground (arith, r.cover a, kept);
        apart = (inl (omega (arith, kept, r.above)), r.apart);
        aligned = (eights.0, r.aligned);
        start = r.start;
        above = r.above;
        inside = r.inside;
        short = omega (arith, r.short);
        kept = same.1;
        free = r.free;
        still = λ a i d. ground (arith, r.still a);
        frame = λ a na side. r.frame a (λ e. na (rw on e)) side;
      }
]

-- A block from which `kalloc_page` takes a page leaves no block of size 0, and one that starts with the
-- page is not the one that `kernel_heap_free` stands at.
pub record PagesFit (h : Blocks) (ys : List ℕ) : Type 0 where
  pub aligned : AllAligned ys
  pub clean : (b : ℕ) → b ∈ ys → 0x1000 ≤ room b h → (overhead b ≡ 0) ⊎ (0x1000 < room b h)
  pub rover : 0x1000 ≤ room h.free h → 0 < overhead h.free

rover_stays :
    (h : Blocks) (ys : List ℕ) (b : ℕ)
    → PagesFit h ys
    → 0x1000 ≤ room b h
    → (h.free ≢ b) ⊎ (0 < overhead b)
rover_stays h ys b fit le = elim (Bool-cases (h.free == b)) [
  | inl here ↦
      let e : h.free ≡ b = ground arith in
      inr (subst (λ x. 0 < overhead x) e (fit.rover (subst (λ x. 0x1000 ≤ room x h) (sym e) le)))
  | inr away ↦ inl (ground arith)
]

after_page-IsHeap :
    (base limit b : ℕ) (h : Blocks) (ys : List ℕ)
    → IsHeap base limit h ys
    → (h.free ≢ b) ⊎ (0 < overhead b)
    → (t : PageTaken base limit b base h ys) → IsHeap base limit t.k t.zs
after_page-IsHeap base limit b h ys v other t = record {
  base_pos = v.base_pos;
  base_below = v.base_below;
  limit_fits = v.limit_fits;
  base_empty = t.kept ∙ v.base_empty;
  ring = t.up;
  rover =
      subst (λ x. x ∈ (base ∷ t.zs)) (sym t.free) (ground (arith, v.rover, t.still h.free, other));
}

-- Some block has a whole page.
abbrev page_fits : Blocks → ℕ → Bool
page_fits h y = leb 0x1000 (room y h)

unfoldable pub any_page : Blocks → List ℕ → Bool
unfolding any
any_page h ys = any (page_fits h) ys

module _ {S : Type 0} (source : PageSource S) (base limit : ℕ) (s : Heap S) where
  abbrev finish : ℕ → ℕ → Run (ℕ × Heap S)
  finish a b = let (page, k) = take_page a b s.blocks in ok (page, record s { blocks = k })

  loop_on :
      (fuel q y : ℕ)
      → page_fits s.blocks y ≡ false
      → (y == s.blocks.free) ≡ false
      → page_loop source (suc fuel) q y s ≡ page_loop source fuel y (s.blocks.next_block y) s
  unfolding page_loop
  loop_on fuel q y small on = rw (small, on)

  loop_hit :
      (fuel q y : ℕ) → page_fits s.blocks y ≡ true → page_loop source (suc fuel) q y s ≡ finish q y
  unfolding page_loop
  loop_hit fuel q y here = rw here (ground arith)

  room_empty : s.blocks.block_size base ≡ 0 → page_fits s.blocks base ≡ false
  unfolding room
  room_empty e = ground arith

  pub page_search :
      (fuel : ℕ) (ys : List ℕ)
      → IsHeap base limit s.blocks ys
      → any_page s.blocks ys ≡ true
      → 2 * length ys + 1 ≤ fuel
      → (b : ℕ) × (b ∈ ys)
        × (page_fits s.blocks b ≡ true)
        × (page_loop source fuel s.blocks.free (s.blocks.next_block s.blocks.free) s
            ≡ finish (before b base ys) b)
  unfolding any_page
  page_search fuel ys v some enough =
      search_all base limit s.blocks (page_fits s.blocks) (λ n q y. page_loop source n q y s) finish
        loop_hit loop_on fuel ys v (room_empty v.base_empty) some enough

module _ {S : Type 0} (source : PageSource S) {base limit : ℕ} {s : Heap S} {ys : List ℕ} where
  -- On a well-formed heap whose blocks start at multiples of eight, where some block holds a whole page, where every
  -- block that does starts with it or has more than it from there on, and where the block that
  -- `kernel_heap_free` stands at does not start with one, `kalloc_page` with fuel for twice the length of the list ends without
  -- asking for a page. It returns a page on a page boundary inside the heap, above the static header. The
  -- heap stays well-formed, with at most one free block more, and the bytes that were free are those that still are
  -- and, apart from them, those of that page.
  pub kalloc_page-IsHeap :
      (fuel : ℕ)
      → IsHeap base limit s.blocks ys
      → PagesFit s.blocks ys
      → any_page s.blocks ys ≡ true
      → 2 * length ys + 1 ≤ fuel
      → (page : ℕ) × (k : Blocks) × (zs : List ℕ) × (kalloc_page source base fuel s
          ≡ ok (page, record s { blocks = k }))
        × IsHeap base limit k zs
        × (page % 0x1000 ≡ 0)
        × (base < page)
        × (page + 0x1000 ≤ limit)
        × (length zs ≤ suc (length ys))
        × Apart k page 0x200 zs
        × ((a : ℕ) → covered s.blocks ys a ≡ (covered k zs a || within page 0x200 a))
  unfolding kalloc_page init_free
  kalloc_page-IsHeap fuel v fit some enough =
      let (b, m, big, run) = page_search source base limit s fuel ys v some enough in
      let le : 0x1000 ≤ room b s.blocks = ground (arith, big) in
      let t =
        page_at base limit b base s.blocks ys v.limit_fits v.ring fit.aligned m
          (record { big = le; clean = fit.clean b m le }) in
      let nonnull : (s.blocks.free == 0) ≡ false =
        ground (arith, Up-above s.blocks base limit base s.blocks.free ys v.ring) in
      (
        aligned_address b,
        t.k,
        t.zs,
        rw nonnull (run ∙ ap (λ r. ok (r.0, record s { blocks = r.1 })) t.run),
        after_page-IsHeap base limit b s.blocks ys v (rover_stays s.blocks ys b fit le) t,
        t.start,
        omega (arith, t.above, Up-above s.blocks base limit base b ys v.ring m),
        t.inside,
        t.short,
        t.apart,
        t.cover,
      )
