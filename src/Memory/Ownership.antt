-- ===== src/Memory/Ownership.antt =====
-- Who holds which physical page, while callers take pages and give them back.
use klos.Base.{
  ℕ, ◌+◌, ◌≤◌, ◌<◌, ◌≡◌, refl, ◌≢◌, ◌∙◌, sym, List, [], ◌∷◌, arith, length, ltb, if◌then◌else◌,
  erase, count, count-cons, count-erase, ◌∈◌, ◌∉◌, not-mem_of_count,
}
use klos.Memory.{FrameStacks, mm_page_allocate, mm_page_free}
use klos.Memory.Refinement.{
  IsFrames, take_frame, give_frame, mm_page_allocate-IsFrames, mm_page_free-IsFrames,
}

-- The allocator and the pages that its callers hold.
pub record System : Type 0 where
  pub stacks : FrameStacks
  pub owned : List ℕ

-- A call of `mm_page_allocate` that yields a page, one that yields none, and a call of
-- `mm_page_free` with a page that the caller holds.
pub data Step : System → System → Type 0 where
  takes :
      {s : System}
      → (mm_page_allocate s.stacks).0 ≢ 0
      → Step s (record {
        stacks = (mm_page_allocate s.stacks).1;
        owned = (mm_page_allocate s.stacks).0 ∷ s.owned;
      })
  refused :
      {s : System}
      → (mm_page_allocate s.stacks).0 ≡ 0
      → Step s (record { stacks = (mm_page_allocate s.stacks).1; owned = s.owned })
  gives :
      {s : System} (page : ℕ)
      → page ∈ s.owned
      → Step s (record { stacks = mm_page_free page s.stacks; owned = erase page s.owned })

pub data Reach (s : System) : System → Type 0 where
  start : Reach s s
  later : {t u : System} → Reach s t → Step t u → Reach s u

-- How many pages of a list lie at 1 MB or above.
unfoldable pub highs : List ℕ → ℕ
highs [] = 0
highs (x ∷ xs) = (if ltb x 0x100000 then 0 else 1) + highs xs

highs-erase :
    (p : ℕ) (xs : List ℕ)
    → p ∈ xs
    → (highs (erase p xs) + (if ltb p 0x100000 then 0 else 1) ≡ highs xs)
      × (length (erase p xs) + 1 ≡ length xs)
unfolding highs erase
highs-erase p [] h = cc
highs-erase p (x ∷ xs) h = ground (arith, highs-erase p xs)

abbrev pub AllHigh : List ℕ → Type 0
AllHigh [] = Unit
AllHigh (x ∷ xs) = (0x100000 ≤ x) × AllHigh xs

abbrev pub AllLow : List ℕ → Type 0
AllLow [] = Unit
AllLow (x ∷ xs) = (x < 0x100000) × AllLow xs

highs-le-length : (xs : List ℕ) → highs xs ≤ length xs
unfolding highs
highs-le-length [] = omega arith
highs-le-length (x ∷ xs) = ground (arith, highs-le-length xs)

-- The free pages `hi` and `lo` and the held ones together are the pages `all`, of which `h` are
-- high and `l` are low, and none of which is page 0.
pub record Inv (all : List ℕ) (h l : ℕ) (s : System) (hi lo : List ℕ) : Type 0 where
  pub frames : IsFrames s.stacks hi lo
  pub conserved : (a : ℕ) → count a hi + count a lo + count a s.owned ≡ count a all
  pub no_null : count 0 all ≡ 0
  pub all_high : AllHigh hi
  pub all_low : AllLow lo
  pub high_total : length hi + highs s.owned ≡ h
  pub low_total : length lo + length s.owned ≡ l + highs s.owned

module _ {all : List ℕ} {h l : ℕ} {s : System} where
  takes-Inv :
      (hi lo : List ℕ)
      → Inv all h l s hi lo
      → (take_frame hi lo).0 ≢ 0
      → Inv all h l
          (record {
            stacks = (mm_page_allocate s.stacks).1;
            owned = (take_frame hi lo).0 ∷ s.owned;
          })
          (take_frame hi lo).1.hi
          (take_frame hi lo).1.lo
  unfolding take_frame highs
  takes-Inv [] [] v ne = absurd (ne refl)
  takes-Inv [] (x ∷ lo) v ne = record {
    frames = (mm_page_allocate-IsFrames s.stacks [] (x ∷ lo) v.frames).1;
    conserved = λ a. omega (arith, v.conserved a, count-cons a x lo, count-cons a x s.owned);
    no_null = v.no_null;
    all_high = tt;
    all_low = v.all_low.1;
    high_total = ground arith;
    low_total = ground arith;
  }
  takes-Inv (x ∷ hi) lo v ne = record {
    frames = (mm_page_allocate-IsFrames s.stacks (x ∷ hi) lo v.frames).1;
    conserved = λ a. omega (arith, v.conserved a, count-cons a x hi, count-cons a x s.owned);
    no_null = v.no_null;
    all_high = v.all_high.1;
    all_low = v.all_low;
    high_total = ground arith;
    low_total = ground arith;
  }

  -- Only an allocator with no free page answers 0, and it stays as it is.
  refused-Inv :
      (hi lo : List ℕ)
      → Inv all h l s hi lo
      → (take_frame hi lo).0 ≡ 0
      → Inv all h l (record { stacks = (mm_page_allocate s.stacks).1; owned = s.owned }) [] []
  unfolding take_frame
  refused-Inv [] [] v e = record {
    frames = (mm_page_allocate-IsFrames s.stacks [] [] v.frames).1;
    conserved = v.conserved;
    no_null = v.no_null;
    all_high = tt;
    all_low = tt;
    high_total = v.high_total;
    low_total = v.low_total;
  }
  refused-Inv [] (x ∷ lo) v e = absurd (ground (arith, v.conserved 0, count-cons 0 x lo))
  refused-Inv (x ∷ hi) lo v e = absurd (ground arith)

  gives-Inv :
      (page : ℕ) (hi lo : List ℕ)
      → h ≤ 0x100000
      → l ≤ 0x100
      → Inv all h l s hi lo
      → page ∈ s.owned
      → let f = give_frame page (record { hi = hi; lo = lo }) in
        Inv all h l
          (record { stacks = mm_page_free page s.stacks; owned = erase page s.owned })
          f.hi
          f.lo
  unfolding give_frame
  gives-Inv page hi lo few_high few_low v held =
      let less = highs-erase page s.owned held in
      let few = highs-le-length (erase page s.owned) in
      let kept =
        mm_page_free-IsFrames page s.stacks hi lo v.frames (λ q. ground arith)
          (λ q. ground arith) in
      record {
        frames = kept;
        conserved = λ a. ground (
          arith,
          v.conserved a,
          count-erase a page s.owned held,
          count-cons a page lo,
          count-cons a page hi,
        );
        no_null = v.no_null;
        all_high = ground arith;
        all_low = ground arith;
        high_total = ground arith;
        low_total = ground arith;
      }

Step-Inv :
    {all : List ℕ} {h l : ℕ} {s t : System} (few_high : h ≤ 0x100000) (few_low : l ≤ 0x100)
    (hi lo : List ℕ)
    → Inv all h l s hi lo
    → Step s t
    → (hi' : List ℕ) × (lo' : List ℕ) × Inv all h l t hi' lo'
Step-Inv {s} few_high few_low hi lo v (takes ne) =
    let e = (mm_page_allocate-IsFrames s.stacks hi lo v.frames).0 in
    ((take_frame hi lo).1.hi, (take_frame hi lo).1.lo, rw e (takes-Inv hi lo v (λ z. ne (e ∙ z))))
Step-Inv {s} few_high few_low hi lo v (refused z) =
    let e = (mm_page_allocate-IsFrames s.stacks hi lo v.frames).0 in
    ([], [], refused-Inv hi lo v (sym e ∙ z))
Step-Inv few_high few_low hi lo v (gives page held) =
    (_, _, gives-Inv page hi lo few_high few_low v held)

-- If the free pages and the held pages of a state are together the pages `all`, at most 0x100000 of
-- them at 1 MB or above and at most 0x100 below, then so they are, with multiplicity, after any
-- sequence of calls.
pub Reach-Inv :
    {all : List ℕ} {h l : ℕ} {s t : System} {hi lo : List ℕ}
    → h ≤ 0x100000
    → l ≤ 0x100
    → Inv all h l s hi lo
    → Reach s t
    → (hi' : List ℕ) × (lo' : List ℕ) × Inv all h l t hi' lo'
Reach-Inv few_high few_low v start = (_, _, v)
Reach-Inv few_high few_low v (later r st) =
    let (hi, lo, w) = Reach-Inv few_high few_low v r in Step-Inv few_high few_low hi lo w st

-- If the free pages and the held pages of a state are together the pages `all`, with at most
-- 0x100000 of them at 1 MB or above and at most 0x100 below, and no page occurs twice in `all`, then
-- a page that `mm_page_allocate` hands out after any sequence of calls is one that no caller holds.
pub fresh_page :
    {all : List ℕ} {h l : ℕ} {s t : System} {hi lo : List ℕ}
    → h ≤ 0x100000
    → l ≤ 0x100
    → ((a : ℕ) → count a all ≤ 1)
    → Inv all h l s hi lo
    → Reach s t
    → (mm_page_allocate t.stacks).0 ≢ 0
    → (mm_page_allocate t.stacks).0 ∉ t.owned
fresh_page {t} few_high few_low once v r ne =
    let (hi, lo, w) = Reach-Inv few_high few_low v r in
    let e = (mm_page_allocate-IsFrames t.stacks hi lo w.frames).0 in
    let after = takes-Inv hi lo w (λ z. ne (e ∙ z)) in
    let page = (take_frame hi lo).0 in
    rw e (
      not-mem_of_count page t.owned
        (ground (arith, after.conserved page, once page, count-cons page page t.owned)))
