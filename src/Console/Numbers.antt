-- ===== src/Console/Numbers.antt =====
-- What `kc_print_integer` and `kc_print_hex` of src/kernel/console.cpp print.
use native.Mathlib.Nat.{
  div-add-mod', mod-lt, div-mul-le_self, mod-eq_of_lt, mod-le, mod-mod, pow-suc, div-eq_of_lt,
  add-mul-mod_self_left, mul-add-div_right, mul-add-mod_self_right,
}
use mathlib.Core.Path.{fun_ext}
use klos.Base.{
  ℕ, zero, suc, ◌+◌, ◌*◌, ◌/◌, ◌%◌, ◌^◌, ◌<◌, ◌≡◌, refl, sym, ap, ◌∙◌, inl, inr, Bool, true, false,
  ◌||◌, not, Option, none, some, List, [], ◌∷◌, map, ◌==◌, if◌then◌else◌, ==_false, u32, sub32,
  Bool-cases, ◌>>=◌, arith,
}
use klos.Base.Bits.{bit_and_low}
use klos.Console.{
  Console, kc_write_character, kc_print_string, integer_loop, kc_print_integer, hex_loop,
  kc_print_hex, hex_char,
}
use klos.Console.Digits.{
  value_from, place_value, place_value-pos, padded, stripped, IsNumeral, stripped-IsNumeral,
}

-- The character of a decimal digit.
abbrev pub decimal_char : ℕ → ℕ
decimal_char d = 48 + d

-- The digits written.
abbrev digits_for : Bool → (b k n : ℕ) → List ℕ
digits_for true b k n = padded b k n
digits_for false b k n = stripped b k n

-- What a round leaves of the number.
rest_mod : (n p : ℕ) → n < 2 ^ 32 → sub32 n (u32 (n / p * p)) ≡ n % p
rest_mod n p h = omega (arith, div-add-mod' n p, div-mul-le_self n p)

-- The divisor when k digits are left.
unfoldable pub lead : ℕ → ℕ
unfolding place_value
lead zero = 0
lead (suc k) = place_value 10 k

lead_step : (k : ℕ) → lead (suc k) / 10 ≡ lead k
unfolding lead place_value
lead_step zero = refl
lead_step (suc k) = omega arith

integer_end : (n : ℕ) (j : Bool) (s : Console) → integer_loop 1 0 n j s ≡ some s
unfolding integer_loop
integer_end n j s = refl

integer_step :
    (fuel i n : ℕ) (j : Bool) (s : Console)
    → 0 < i
    → n < 2 ^ 32
    → integer_loop (suc fuel) i n j s ≡ (
        (if j || not (n / i == 0) then kc_write_character 0 (48 + n / i) s else some s) >>= λ m.
        integer_loop fuel (i / 10) (n % i) (j || not (n / i == 0)) m)
unfolding integer_loop
integer_step fuel i n j s pos h = rw (==_false i 0 (λ e. omega arith), rest_mod n i h) refl

integer_loop-digits :
    (k n : ℕ) (j : Bool) (s : Console)
    → n < 2 ^ 32
    → integer_loop (suc k) (lead k) n j s
      ≡ kc_print_string 0 (map decimal_char (digits_for j 10 k n)) s
unfolding lead kc_print_string stripped padded
integer_loop-digits zero n true s h = integer_end n true s
integer_loop-digits zero n false s h = integer_end n false s
integer_loop-digits (suc k) n true s h =
    let p = place_value 10 k in
    integer_step (suc k) p n true s (place_value-pos 10 k (omega arith)) h
    ∙ rw (lead_step k) (
        ap (λ f. kc_write_character 0 (48 + n / p) s >>= f)
          (fun_ext (λ m. integer_loop-digits k (n % p) true m (omega (arith, mod-le n p)))))
integer_loop-digits (suc k) n false s h =
    let p = place_value 10 k in
    let small : n % p < 2 ^ 32 = omega (arith, mod-le n p) in
    integer_step (suc k) p n false s (place_value-pos 10 k (omega arith)) h
    ∙ elim (Bool-cases (n / p == 0)) [
      | inl e ↦ rw (e, lead_step k) (integer_loop-digits k (n % p) false s small)
      | inr e ↦
          rw (e, lead_step k)
            (ap (λ f. kc_write_character 0 (48 + n / p) s >>= f)
              (fun_ext (λ m. integer_loop-digits k (n % p) true m small)))
    ]

pub >>=-some : {A : Type 0} (m : Option A) → (m >>= λ a. some a) ≡ m
>>=-some none = refl
>>=-some (some a) = refl

ten_digits : (n : ℕ) → n < 2 ^ 32 → n < place_value 10 10
unfolding place_value
ten_digits n h = omega arith

zero_IsNumeral : (b n : ℕ) → n ≡ 0 → 0 < b → IsNumeral b n (0 ∷ [])
unfolding value_from
zero_IsNumeral b n e h = record { value = omega arith; below = (h, tt); canonical = inl refl }

-- `kc_print_integer` of a 32-bit number prints its decimal digits, without leading zeros.
pub kc_print_integer-IsNumeral :
    (n : ℕ) (s : Console)
    → n < 2 ^ 32
    → (ds : List ℕ) × (kc_print_integer n s ≡ kc_print_string 0 (map decimal_char ds) s)
      × IsNumeral 10 n ds
unfolding kc_print_integer kc_print_string lead
kc_print_integer-IsNumeral n s h = elim (Bool-cases (n == 0)) [
  | inl e ↦ (
    0 ∷ [],
    rw e (sym (>>=-some (kc_write_character 0 48 s))),
    zero_IsNumeral 10 n (ground arith) (omega arith),
  )
  | inr e ↦ (
    stripped 10 10 n,
    rw e (integer_loop-digits 10 n false s h),
    stripped-IsNumeral 10 10 n (omega arith) (ground arith) (ten_digits n h),
  )
]

expand : (a c p r : ℕ) → (c + 16 * a) * p + r ≡ (c * p + r) + 16 * p * a
expand a c p r = grind arith

-- The lowest digits of n, up to the digit of value p.
split_k : (n p : ℕ) → 0 < p → n % (16 * p) ≡ n / p % 16 * p + n % p
split_k n p h =
    let c = n / p % 16 in
    let r = n % p in
    let bound : c * p + r < 16 * p = grind (arith, mod-lt n h) in
    let parts_of_q : n / p ≡ c + 16 * (n / p / 16) = omega arith in
    let parts : n ≡ (c * p + r) + 16 * p * (n / p / 16) =
      sym (div-add-mod' n p) ∙ ap (λ q. q * p + r) parts_of_q ∙ expand (n / p / 16) c p r in
    ap (λ m. m % (16 * p)) parts
    ∙ add-mul-mod_self_left (c * p + r) (16 * p) (n / p / 16)
    ∙ mod-eq_of_lt bound

digit_k : (n p : ℕ) → 0 < p → n % (16 * p) / p ≡ n / p % 16
digit_k n p h =
    ap (λ m. m / p) (split_k n p h)
    ∙ mul-add-div_right h (n / p % 16) (n % p)
    ∙ omega (arith, div-eq_of_lt (mod-lt n h))

low_k : (n p : ℕ) → 0 < p → n % (16 * p) % p ≡ n % p
low_k n p h =
    ap (λ m. m % p) (split_k n p h) ∙ mul-add-mod_self_right (n / p % 16) p (n % p) ∙ mod-mod n p

shift_k : (k : ℕ) → 2 ^ (k * 4) ≡ place_value 16 k
unfolding place_value
shift_k zero = refl
shift_k (suc k) =
    let four : suc k * 4 ≡ suc (suc (suc (suc (k * 4)))) = omega arith in
    rw four (
      omega (
        arith,
        shift_k k,
        pow-suc 2 (k * 4),
        pow-suc 2 (suc (k * 4)),
        pow-suc 2 (suc (suc (k * 4))),
        pow-suc 2 (suc (suc (suc (k * 4)))),
      ))

hex_end : (n : ℕ) (j : Bool) (s : Console) → hex_loop 0 n j s ≡ some s
unfolding hex_loop
hex_end n j s = refl

place_value-suc : (k : ℕ) → place_value 16 (suc k) ≡ 16 * place_value 16 k
unfolding place_value
place_value-suc k = refl

hex_step :
    (k n : ℕ) (j : Bool) (s : Console)
    → hex_loop (suc k) n j s ≡ (
        (if j || not (n / place_value 16 k % 16 == 0)
          then kc_write_character 0 (hex_char (n / place_value 16 k % 16)) s
          else some s)
        >>= λ m. hex_loop k n (j || not (n / place_value 16 k % 16 == 0)) m)
unfolding hex_loop
hex_step k n j s = rw (shift_k k, bit_and_low 4 (n / place_value 16 k)) refl

hex_loop-digits :
    (k n : ℕ) (j : Bool) (s : Console)
    → hex_loop k n j s
      ≡ kc_print_string 0 (map hex_char (digits_for j 16 k (n % place_value 16 k))) s
unfolding kc_print_string stripped padded
hex_loop-digits zero n true s = hex_end n true s
hex_loop-digits zero n false s = hex_end n false s
hex_loop-digits (suc k) n true s =
    let p = place_value 16 k in
    let pos = place_value-pos 16 k (omega arith) in
    hex_step k n true s
    ∙ rw (place_value-suc k, digit_k n p pos, low_k n p pos)
        (ap (λ f. kc_write_character 0 (hex_char (n / p % 16)) s >>= f)
          (fun_ext (λ m. hex_loop-digits k n true m)))
hex_loop-digits (suc k) n false s =
    let p = place_value 16 k in
    let pos = place_value-pos 16 k (omega arith) in
    hex_step k n false s ∙ elim (Bool-cases (n / p % 16 == 0)) [
      | inl e ↦
          rw (place_value-suc k, digit_k n p pos, low_k n p pos, e) (hex_loop-digits k n false s)
      | inr e ↦
          rw (place_value-suc k, digit_k n p pos, low_k n p pos, e)
            (ap (λ f. kc_write_character 0 (hex_char (n / p % 16)) s >>= f)
              (fun_ext (λ m. hex_loop-digits k n true m)))
    ]

eight_digits : (n : ℕ) → n < 2 ^ 32 → n % place_value 16 8 ≡ n
unfolding place_value
eight_digits n h = omega arith

below_eight_digits : (n : ℕ) → n < 2 ^ 32 → n < place_value 16 8
unfolding place_value
below_eight_digits n h = omega arith

-- `kc_print_hex` of a 32-bit number prints `0x` and its hexadecimal digits, without leading zeros.
pub kc_print_hex-IsNumeral :
    (n : ℕ) (s : Console)
    → n < 2 ^ 32
    → (ds : List ℕ) × (kc_print_hex n s ≡ kc_print_string 0 (48 ∷ 120 ∷ map hex_char ds) s)
      × IsNumeral 16 n ds
unfolding kc_print_hex kc_print_string hex_char
kc_print_hex-IsNumeral n s h = elim (Bool-cases (n == 0)) [
  | inl e ↦ (
    0 ∷ [],
    rw e (
        ap (λ f. kc_write_character 0 48 s >>= λ m. kc_write_character 0 120 m >>= f)
          (fun_ext (λ m. sym (>>=-some (kc_write_character 0 48 m))))),
    zero_IsNumeral 16 n (ground arith) (omega arith),
  )
  | inr e ↦
      let whole : n % place_value 16 8 ≡ n = eight_digits n h in
      (
        stripped 16 8 n,
        rw e (
            ap (λ f. kc_write_character 0 48 s >>= λ m. kc_write_character 0 120 m >>= f)
              (fun_ext (λ m.
                hex_loop-digits 8 n false m
                ∙ ap (λ v. kc_print_string 0 (map hex_char (stripped 16 8 v)) m) whole))),
        stripped-IsNumeral 16 8 n (omega arith) (ground arith) (below_eight_digits n h),
      )
]
