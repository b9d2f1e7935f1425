-- ===== src/Heap/Free.antt =====
-- `kfree`: the search for the place of a block, and what the free list is afterwards.
use native.Mathlib.Nat.{le_refl}
use native.Mathlib.Decide.{dec_lt}
use klos.Base.{
  ℕ, zero, suc, ◌+◌, ◌-◌, ◌*◌, ◌≤◌, ◌<◌, ◌^◌, ◌≡◌, refl, ◌≢◌, ◌∙◌, ap, inl, inr, false, ◌||◌, List,
  [], ◌∷◌, arith, length, ltb, ◌==◌, if◌then◌else◌, Bool-cases, sub32, has, ◌∈◌, ◌∉◌,
}
use klos.Base.Run.{ok}
use klos.Heap.{Blocks, advance, find_place, link_free, kfree}
use klos.Heap.Ring.{Up, within, covered, Apart, IsHeap, Up-above}
use klos.Heap.Link.{Linked, link_free-OnlyAt, link_here}

-- The block behind which `bp` belongs, among `q` and the blocks above it.
unfoldable pub pred_of : ℕ → ℕ → List ℕ → ℕ
pred_of bp q [] = q
pred_of bp q (y ∷ ys) = if ltb y bp then pred_of bp y ys else q

module _ (base limit bp : ℕ) (h : Blocks) (above : base < bp) (pos : 0 < base)
    (fits : limit ≤ 2 ^ 32) (full : 0 < h.block_size bp)
    (inside : bp + 8 * h.block_size bp ≤ limit) where
  link_at :
      (q : ℕ) (ys : List ℕ)
      → Up h base limit q ys
      → q < bp
      → Apart h bp (h.block_size bp) (q ∷ ys)
      → Linked base limit bp (pred_of bp q ys) q h (link_free bp (pred_of bp q ys) h) ys
  unfolding pred_of
  link_at q [] up lt out =
      link_here base limit bp h above pos fits full inside q [] up lt (ground arith) tt
  link_at q (y ∷ ys) up lt out = elim (Bool-cases (ltb y bp)) [
    | inl on ↦ rw on (
        let p = pred_of bp y ys in
        let k = link_free bp p h in
        let r = link_at y ys up.3 (ground arith) out.1 in
        let q_ne_p : q ≢ p =
          λ e. absurd (ground (arith, Up-above h base limit q p (y ∷ ys) up r.known)) in
        let same = link_free-OnlyAt bp p q h q_ne_p (λ e. absurd (omega arith)) in
        let same_size : k.block_size q ≡ h.block_size q = same.1 in
        record {
          zs = y ∷ r.zs;
          up = (same.0 ∙ up.0, omega arith, omega (arith, r.grows), r.up);
          cover = λ a. ground (arith, same_size, r.cover a);
          grows = omega arith;
          keeps_empty = λ e. same_size ∙ e;
          listed = ground (arith, r.listed);
          known = ground (arith, r.known);
        })
    | inr stop ↦ rw stop (
        link_here base limit bp h above pos fits full inside q (y ∷ ys) up lt (ground arith)
          (ground arith))
  ]

  find_place-climb :
      (fuel q : ℕ) (ys : List ℕ)
      → Up h base limit q ys
      → base ≤ q
      → q < bp
      → Apart h bp (h.block_size bp) ys
      → length ys < fuel
      → find_place fuel h bp q ≡ ok (pred_of bp q ys)
  unfolding find_place pred_of
  find_place-climb zero q ys up low lt out enough = absurd (omega arith)
  find_place-climb (suc fuel) q [] up low lt out enough = ground arith
  find_place-climb (suc fuel) q (y ∷ ys) up low lt out enough =
      ground (arith, find_place-climb fuel y ys up.3)

  find_place-wrap :
      (fuel more q : ℕ) (ys : List ℕ)
      → Up h base limit q ys
      → bp < q
      → fuel ≡ suc (length ys + more)
      → find_place fuel h bp q ≡ find_place more h bp base
  unfolding find_place
  find_place-wrap zero more q ys up gt e = absurd (omega arith)
  find_place-wrap (suc fuel) more q [] up gt e = ground arith
  find_place-wrap (suc fuel) more q (y ∷ ys) up gt e =
      ground (arith, find_place-wrap fuel more y ys up.3)

-- The part of the list from the block `f` on.
record Suffix (base limit bp f q : ℕ) (h : Blocks) (ys : List ℕ) : Type 0 where
  rest : List ℕ
  up : Up h base limit f rest
  apart : Apart h bp (h.block_size bp) (f ∷ rest)
  short : length rest ≤ length ys
  same_pred : f < bp → pred_of bp f rest ≡ pred_of bp q ys

suffix_at :
    (base limit bp f q : ℕ) (h : Blocks) (ys : List ℕ)
    → Up h base limit q ys
    → Apart h bp (h.block_size bp) (q ∷ ys)
    → f ∈ (q ∷ ys)
    → Suffix base limit bp f q h ys
unfolding pred_of
suffix_at base limit bp f q h [] up out m =
    let e : f ≡ q = ground arith in
    rw e (record { rest = []; up = up; apart = out; short = le_refl _; same_pred = λ l. refl })
suffix_at base limit bp f q h (y ∷ ys) up out m = elim (Bool-cases (f == q)) [
  | inl here ↦
      let e : f ≡ q = ground arith in
      rw e
        (record { rest = y ∷ ys; up = up; apart = out; short = le_refl _; same_pred = λ l. refl })
  | inr there ↦
      let r = suffix_at base limit bp f y h ys up.3 out.1 (ground arith) in
      record {
        rest = r.rest;
        up = r.up;
        apart = r.apart;
        short = omega (arith, r.short);
        same_pred = λ l. ground (arith, r.same_pred l, Up-above h base limit y f ys up.3);
      }
]

-- A block in use: a header with a size, inside the heap and clear of the free blocks.
pub record IsAllocated (base limit bp : ℕ) (h : Blocks) (ys : List ℕ) : Type 0 where
  pub above : base < bp
  pub full : 0 < h.block_size bp
  pub inside : bp + 8 * h.block_size bp ≤ limit
  pub apart : Apart h bp (h.block_size bp) ys

module _ {base limit : ℕ} {h : Blocks} {ys : List ℕ} where
  find_place-pred :
      (fuel bp : ℕ)
      → IsHeap base limit h ys
      → IsAllocated base limit bp h ys
      → 2 * length ys + 2 < fuel
      → find_place fuel h bp h.free ≡ ok (pred_of bp base ys)
  find_place-pred fuel bp v b enough =
      let climb =
        find_place-climb base limit bp h b.above v.base_pos v.limit_fits b.full b.inside in
      let wrap = find_place-wrap base limit bp h b.above v.base_pos v.limit_fits b.full b.inside in
      let out : Apart h bp (h.block_size bp) (base ∷ ys) = (inl (omega arith), b.apart) in
      let r = suffix_at base limit bp h.free base h ys v.ring out v.rover in
      let low : base ≤ h.free = ground (arith, Up-above h base limit base h.free ys v.ring) in
      elim (dec_lt h.free bp) [
        | yes l ↦
            climb fuel h.free r.rest r.up low l r.apart.1 (omega (arith, r.short))
            ∙ ap ok (r.same_pred l)
        | no ge ↦
            let more = fuel - suc (length r.rest) in
            wrap fuel more h.free r.rest r.up (ground (arith, r.apart.0, ge))
              (omega (arith, r.short))
            ∙ climb more base ys v.ring (le_refl _) b.above b.apart (omega (arith, r.short))
      ]

  -- Given fuel for twice the length of the list, `kfree` of a block in use ends, and leaves a
  -- well-formed heap whose free bytes are those that were free and those of the block.
  pub kfree-IsHeap :
      (fuel bp : ℕ)
      → IsHeap base limit h ys
      → IsAllocated base limit bp h ys
      → 2 * length ys + 2 < fuel
      → (k : Blocks) × (zs : List ℕ) × (kfree fuel (advance bp 1) h ≡ ok k)
        × IsHeap base limit k zs
        × ((a : ℕ) → covered k zs a ≡ (covered h ys a || within bp (h.block_size bp) a))
        × ((a : ℕ) → a ∉ (base ∷ ys) → a ≢ bp → k.block_size a ≡ h.block_size a)
  unfolding kfree
  kfree-IsHeap fuel bp v b enough =
      let p = pred_of bp base ys in
      let k = link_free bp p h in
      let out : Apart h bp (h.block_size bp) (base ∷ ys) = (inl (omega arith), b.apart) in
      let r =
        link_at base limit bp h b.above v.base_pos v.limit_fits b.full b.inside base ys v.ring
          b.above out in
      let back : sub32 (advance bp 1) 8 ≡ bp = omega arith in
      let found = find_place-pred fuel bp v b enough in
      let nonnull : (h.free == 0) ≡ false =
        ground (arith, Up-above h base limit base h.free ys v.ring) in
      (
        k,
        r.zs,
        rw (nonnull, back, found) refl,
        record {
          base_pos = v.base_pos;
          base_below = v.base_below;
          limit_fits = v.limit_fits;
          base_empty = r.keeps_empty v.base_empty;
          ring = r.up;
          rover = r.listed;
        },
        λ a. ground (arith, r.cover a, r.keeps_empty v.base_empty),
        λ a na nb.
            (link_free-OnlyAt bp p a h (λ e. cc (ap (λ x. has x (base ∷ ys)) e, r.known, na)) nb).1,
      )
