-- ===== src/Heap/Search.antt =====
-- The search that `kalloc` and `kalloc_page` of src/kernel/kalloc.cpp share: from the block behind the
-- pointer round the list to the pointer itself.
use klos.Base.{
  ℕ, zero, suc, ◌+◌, ◌-◌, ◌*◌, ◌≤◌, ◌≡◌, refl, ◌∙◌, ap, ◌⊎◌, inl, inr, Bool, true, false, not, ◌&&◌,
  ◌||◌, List, [], ◌∷◌, arith, length, ◌==◌, if◌then◌else◌, Bool-cases, ◌∈◌, ◌∉◌,
}
use klos.Heap.{Blocks}
use klos.Heap.Ring.{Up, IsHeap, Up-above}
use klos.Heap.Take.{before}

-- The blocks behind the block `f`.
pub after : ℕ → ℕ → List ℕ → List ℕ
after f q [] = []
after f q (y ∷ ys) = if q == f then y ∷ ys else after f y ys

-- The last block of a list that begins behind `q`.
abbrev pub last : ℕ → List ℕ → ℕ
last q [] = q
last q (y ∷ ys) = last y ys

-- Some block passes; some block up to the block `f` does.
module _ (test : ℕ → Bool) where
  unfoldable pub any : List ℕ → Bool
  any [] = false
  any (y ∷ ys) = test y || any ys

  any_until : ℕ → List ℕ → Bool
  any_until f [] = false
  any_until f (y ∷ ys) = test y || (not (y == f) && any_until f ys)

module _ (f : ℕ) where
  after-mem : (b q : ℕ) (ys : List ℕ) → b ∈ after f q ys → b ∈ ys
  unfolding after
  after-mem b q [] m = m
  after-mem b q (y ∷ ys) m = ground (arith, after-mem b y ys)

  pub length-after : (q : ℕ) (ys : List ℕ) → length (after f q ys) ≤ length ys
  unfolding after
  length-after q [] = omega arith
  length-after q (y ∷ ys) = ground (arith, length-after y ys)

  pub after_self : (q : ℕ) (ys : List ℕ) → q ≡ f → after f q ys ≡ ys
  unfolding after
  after_self q [] e = refl
  after_self q (y ∷ ys) e = ground arith

module _ (base limit f : ℕ) (h : Blocks) where
  pub after-Up :
      (q : ℕ) (ys : List ℕ) → Up h base limit q ys → f ∈ (q ∷ ys) → Up h base limit f (after f q ys)
  unfolding after
  after-Up q [] up m = let e : f ≡ q = ground arith in rw e up
  after-Up q (y ∷ ys) up m = elim (Bool-cases (q == f)) [
    | inl here ↦ let e : q ≡ f = ground arith in rw here (rw e at up)
    | inr on ↦ rw on (after-Up y ys up.3 (ground arith))
  ]

  before-after :
      (b q : ℕ) (ys : List ℕ)
      → Up h base limit q ys
      → f ∈ (q ∷ ys)
      → b ∈ after f q ys
      → before b f (after f q ys) ≡ before b q ys
  unfolding after before
  before-after b q [] up m i = cc
  before-after b q (y ∷ ys) up m i =
      ground
        (arith, before-after b y ys up.3, after-mem f b y ys, Up-above h base limit y b ys up.3)

module _ (test : ℕ → Bool) (f : ℕ) where
  after-any :
      (q : ℕ) (ys : List ℕ)
      → any test ys ≡ true
      → f ∈ (q ∷ ys)
      → (any test (after f q ys) ≡ true) ⊎ (any_until test f ys ≡ true)
  unfolding after any any_until
  after-any q [] some m = cc
  after-any q (y ∷ ys) some m = ground (arith, after-any y ys, after_self f y ys)

  pub after-none : (q : ℕ) (ys : List ℕ) → any test ys ≡ false → any test (after f q ys) ≡ false
  unfolding after any
  after-none q [] none = none
  after-none q (y ∷ ys) none = ground (arith, after-none y ys)

  any_until-absent : (ys : List ℕ) → f ∉ ys → any test ys ≡ true → any_until test f ys ≡ true
  unfolding any any_until
  any_until-absent [] out some = some
  any_until-absent (y ∷ ys) out some = ground (arith, any_until-absent ys)

-- A loop over the list that ends with `finish` at a block that passes, and goes on from one that does not
-- and is not the one that the pointer stands at.
module _ {R : Type 0} (base limit : ℕ) (h : Blocks) (test : ℕ → Bool) (loop : ℕ → ℕ → ℕ → R)
    (finish : ℕ → ℕ → R) (hit : (fuel q y : ℕ) → test y ≡ true → loop (suc fuel) q y ≡ finish q y)
    (on : (fuel q y : ℕ)
      → test y ≡ false
      → (y == h.free) ≡ false
      → loop (suc fuel) q y ≡ loop fuel y (h.next_block y)) where
  search_hit :
      (fuel q : ℕ) (ys : List ℕ)
      → Up h base limit q ys
      → any_until test h.free ys ≡ true
      → length ys ≤ fuel
      → (b : ℕ) × (b ∈ ys)
        × (test b ≡ true)
        × (loop fuel q (h.next_block q) ≡ finish (before b q ys) b)
  unfolding any_until before
  search_hit fuel q [] up some enough = cc
  search_hit zero q (y ∷ ys) up some enough = absurd (omega arith)
  search_hit (suc fuel) q (y ∷ ys) up some enough =
      let next : h.next_block q ≡ y = up.0 in
      elim (Bool-cases (test y)) [
        | inl here ↦ (y, ground arith, here, rw next (hit fuel q y here ∙ ground arith))
        | inr not_here ↦
            let (b, m, passes, run) = search_hit fuel y ys up.3 (ground arith) (omega arith) in
            let higher : (y == b) ≡ false = ground (arith, Up-above h base limit y b ys up.3) in
            let step = on fuel q y not_here (ground arith) in
            (b, ground arith, passes, rw next step ∙ run ∙ rw higher)
      ]

  -- Where no block of a part of the list passes, and the pointer is not there, the loop comes to its end.
  pub search_miss :
      (fuel more q : ℕ) (ys : List ℕ)
      → Up h base limit q ys
      → any test ys ≡ false
      → h.free ∉ ys
      → fuel ≡ length ys + more
      → loop fuel q (h.next_block q) ≡ loop more (last q ys) base
  unfolding any
  search_miss fuel more q [] up none out e = let e' : fuel ≡ more = omega arith in rw (e', up.0)
  search_miss zero more q (y ∷ ys) up none out e = absurd (omega arith)
  search_miss (suc fuel) more q (y ∷ ys) up none out e =
      rw up.0 (on fuel q y (ground arith) (ground arith))
      ∙ search_miss fuel more y ys up.3 (ground arith) (ground arith) (omega arith)

  -- From the block behind the pointer the loop finds a block that passes, if there is one.
  pub search_all :
      (fuel : ℕ) (ys : List ℕ)
      → IsHeap base limit h ys
      → test base ≡ false
      → any test ys ≡ true
      → 2 * length ys + 1 ≤ fuel
      → (b : ℕ) × (b ∈ ys)
        × (test b ≡ true)
        × (loop fuel h.free (h.next_block h.free) ≡ finish (before b base ys) b)
  search_all fuel ys v empty some enough =
      let f = h.free in
      let rest = after f base ys in
      let up = after-Up base limit f h base ys v.ring v.rover in
      let short = length-after f base ys in
      let absent : f ∉ rest = ground (arith, Up-above h base limit f f rest up) in
      elim (Bool-cases (any test rest)) [
        | inl found ↦
            let (b, m, passes, run) =
              search_hit fuel f rest up (any_until-absent test f rest absent found) (omega arith) in
            (
              b,
              after-mem f b base ys m,
              passes,
              run ∙ ap (λ a. finish a b) (before-after base limit f h b base ys v.ring v.rover m),
            )
        | inr miss ↦
            let more = fuel - length rest - 1 in
            let near : any_until test f ys ≡ true =
              ground (arith, after-any test f base ys some v.rover) in
            let (b, m, passes, run) = search_hit more base ys v.ring near (omega arith) in
            (
              b,
              m,
              passes,
              search_miss fuel (suc more) f rest up miss absent (omega arith)
                  ∙ on more (last f rest) base empty (ground (arith, after_self f base ys))
                  ∙ run,
            )
      ]

  -- From the block `q` the loop comes to the block that the pointer stands at, if none before passes.
  pub search_to :
      (fuel q : ℕ) (ys : List ℕ)
      → Up h base limit q ys
      → any test ys ≡ false
      → h.free ∈ ys
      → length ys ≤ fuel
      → (a : ℕ) × (more : ℕ) × (loop fuel q (h.next_block q) ≡ loop (suc more) a h.free)
  unfolding any
  search_to fuel q [] up none m enough = cc
  search_to zero q (y ∷ ys) up none m enough = absurd (omega arith)
  search_to (suc fuel) q (y ∷ ys) up none m enough = elim (Bool-cases (y == h.free)) [
    | inl here ↦ let e : y ≡ h.free = ground arith in (q, fuel, rw (up.0, e) refl)
    | inr away ↦
        let (a, more, run) = search_to fuel y ys up.3 (ground arith) (ground arith) (omega arith) in
        (a, more, rw up.0 (on fuel q y (ground arith) away) ∙ run)
  ]
