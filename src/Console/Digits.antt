-- ===== src/Console/Digits.antt =====
-- The digits of a number to a base, the highest first.
use native.Mathlib.Nat.{div-add-mod', mod-lt, div-lt_iff_lt-mul, mod-eq_of_lt}
use klos.Base.{
  ℕ, zero, suc, ◌+◌, ◌*◌, ◌/◌, ◌%◌, ◌<◌, ◌≡◌, ◌∙◌, ◌⊎◌, inl, inr, List, [], ◌∷◌, ◌==◌,
  if◌then◌else◌, Bool-cases, arith,
}

-- b to the power k.
unfoldable pub place_value : ℕ → ℕ → ℕ
place_value b zero = 1
place_value b (suc k) = b * place_value b k

pub place_value-pos : (b k : ℕ) → 0 < b → 0 < place_value b k
unfolding place_value
place_value-pos b zero h = omega arith
place_value-pos b (suc k) h = grind (arith, place_value-pos b k h)

-- The lowest k digits of n, zeros included.
unfoldable pub padded : (b k n : ℕ) → List ℕ
padded b zero n = []
padded b (suc k) n = (n / place_value b k) ∷ padded b k (n % place_value b k)

-- The same from the first digit that is not zero.
unfoldable pub stripped : (b k n : ℕ) → List ℕ
unfolding padded
stripped b zero n = []
stripped b (suc k) n =
    let rest = stripped b k (n % place_value b k) in
    if n / place_value b k == 0 then rest else padded b (suc k) n

-- The number that digits stand for, after a number that has been read.
unfoldable pub value_from : ℕ → ℕ → List ℕ → ℕ
value_from b acc [] = acc
value_from b acc (d ∷ ds) = value_from b (acc * b + d) ds

abbrev pub AllBelow : ℕ → List ℕ → Type 0
AllBelow b [] = Unit {0}
AllBelow b (d ∷ ds) = (d < b) × AllBelow b ds

-- The first digit is not zero.
abbrev pub NoLeadingZero : List ℕ → Type 0
NoLeadingZero [] = ⊥
NoLeadingZero (d ∷ ds) = 0 < d

-- The digits of n to base b: they stand for n, and start with zero only where n is zero.
pub record IsNumeral (b n : ℕ) (ds : List ℕ) : Type 0 where
  pub value : value_from b 0 ds ≡ n
  pub below : AllBelow b ds
  pub canonical : (ds ≡ 0 ∷ []) ⊎ NoLeadingZero ds

digit_lt : (b k n : ℕ) → 0 < b → n < place_value b (suc k) → n / place_value b k < b
unfolding place_value
digit_lt b k n h l =
    (div-lt_iff_lt-mul {k = place_value b k} {x = n} {y = b} (place_value-pos b k h)).1 l

pub padded-AllBelow : (b k n : ℕ) → 0 < b → n < place_value b k → AllBelow b (padded b k n)
unfolding padded
padded-AllBelow b zero n h l = tt
padded-AllBelow b (suc k) n h l = (
  digit_lt b k n h l,
  padded-AllBelow b k (n % place_value b k) h (mod-lt n (place_value-pos b k h)),
)

value_from-padded :
    (b k n acc : ℕ)
    → 0 < b
    → n < place_value b k
    → value_from b acc (padded b k n) ≡ acc * place_value b k + n
unfolding value_from padded place_value
value_from-padded b zero n acc h l = omega arith
value_from-padded b (suc k) n acc h l =
    value_from-padded b k (n % place_value b k) (acc * b + n / place_value b k) h
      (mod-lt n (place_value-pos b k h))
    ∙ grind (arith, div-add-mod' n (place_value b k))

below_one : (b n : ℕ) → 0 < n → n < place_value b 0 → ⊥
unfolding place_value
below_one b n p l = omega arith

small_of_no_digit : (b k n : ℕ) → 0 < b → n / place_value b k ≡ 0 → n < place_value b k
small_of_no_digit b k n h e =
    grind (arith, div-add-mod' n (place_value b k), mod-lt n (place_value-pos b k h))

-- A positive number below b to the power k has k stripped digits at most, and they are its numeral.
pub stripped-IsNumeral :
    (b k n : ℕ) → 0 < b → 0 < n → n < place_value b k → IsNumeral b n (stripped b k n)
unfolding stripped padded
stripped-IsNumeral b zero n h p l = absurd (below_one b n p l)
stripped-IsNumeral b (suc k) n h p l = elim (Bool-cases (n / place_value b k == 0)) [
  | inl e ↦
      let small : n < place_value b k = small_of_no_digit b k n h (ground arith) in
      rw (e, mod-eq_of_lt small) (stripped-IsNumeral b k n h p small)
  | inr e ↦ rw e (record {
    value = value_from-padded b (suc k) n 0 h l ∙ omega arith;
    below = padded-AllBelow b (suc k) n h l;
    canonical = inr (ground arith);
  })
]
