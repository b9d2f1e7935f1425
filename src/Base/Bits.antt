-- ===== src/Base/Bits.antt =====
-- Masks and packed fields: `&` and `|` split at any bit position.
use Prim.Native.Nat.{min, max, digits, bitwise, bit_and-bitwise, bit_or-bitwise}
use native.Mathlib.Nat.{le_refl, pow-suc, one-le-pow, div-add-mod', mod-lt}
use Prim.Native.Nat.{ℕ, zero, suc, ◌+◌, ◌-◌, ◌*◌, ◌/◌, ◌%◌, ◌^◌, ◌≤◌, ◌<◌, bit_and, bit_or}
use mathlib.Core.Path.{◌≡◌, refl}
use native.Mathlib.Omega.{arith}

-- The digit recursion does not depend on its fuel.
module _ (z : ℕ → ℕ) (f : ℕ → ℕ → ℕ) where
  digits_enough : (k l a b : ℕ) → a ≤ k → a ≤ l → digits z f k a b ≡ digits z f l a b
  digits_enough zero zero a b p q = refl
  digits_enough zero (suc l) zero b p q = refl
  digits_enough zero (suc l) (suc a) b p q = absurd (omega arith)
  digits_enough (suc k) zero zero b p q = refl
  digits_enough (suc k) zero (suc a) b p q = absurd (omega arith)
  digits_enough (suc k) (suc l) zero b p q = refl
  digits_enough (suc k) (suc l) (suc a) b p q =
      rw (digits_enough k l (suc a / 2) (b / 2) (omega arith) (omega arith))

  bitwise_low_digit :
      (a b : ℕ)
      → bitwise z f (suc a) b ≡ bitwise z f (suc a / 2) (b / 2) * 2 + f (suc a % 2) (b % 2)
  bitwise_low_digit a b =
      omega (arith, digits_enough a (suc a / 2) (suc a / 2) (b / 2) (omega arith) (le_refl _))

and_low_digit : (a b : ℕ) → bit_and a b ≡ bit_and (a / 2) (b / 2) * 2 + min (a % 2) (b % 2)
and_low_digit zero b = simp bit_and-bitwise (omega arith)
and_low_digit (suc a) b = simp bit_and-bitwise (bitwise_low_digit (λ y. 0) min a b)

or_low_digit : (a b : ℕ) → bit_or a b ≡ bit_or (a / 2) (b / 2) * 2 + max (a % 2) (b % 2)
or_low_digit zero b = simp bit_or-bitwise (omega arith)
or_low_digit (suc a) b = simp bit_or-bitwise (bitwise_low_digit (λ y. y) max a b)

halve_field : (q r w : ℕ) → (q * (2 * w) + r) / 2 ≡ q * w + r / 2
halve_field q r w = omega (arith)

parity_field : (q r w : ℕ) → (q * (2 * w) + r) % 2 ≡ r % 2
parity_field q r w = omega (arith)

double : (k : ℕ) → 2 ^ suc k ≡ 2 * 2 ^ k
double k = omega (arith, pow-suc 2 k)

-- `&` and `|` work on the bits above and below position `k` apart.
bit_and_split_step :
    (w q p r s : ℕ)
    → bit_and (q * w + r / 2) (p * w + s / 2) ≡ bit_and q p * w + bit_and (r / 2) (s / 2)
    → bit_and (q * (2 * w) + r) (p * (2 * w) + s) ≡ bit_and q p * (2 * w) + bit_and r s
bit_and_split_step w q p r s ih =
    rw
      (
        and_low_digit (q * (2 * w) + r) (p * (2 * w) + s),
        and_low_digit r s,
        halve_field q r w,
        halve_field p s w,
        parity_field q r w,
        parity_field p s w,
        ih,
      )
      (omega arith)

pub bit_and_split :
    (k q p r s : ℕ)
    → r < 2 ^ k
    → s < 2 ^ k
    → bit_and (q * 2 ^ k + r) (p * 2 ^ k + s) ≡ bit_and q p * 2 ^ k + bit_and r s
bit_and_split zero q p r s hr hs =
    let er : r ≡ 0 = omega arith in let es : s ≡ 0 = omega arith in rw (er, es) (ground arith)
bit_and_split (suc k) q p r s hr hs = rw (double k) (
    bit_and_split_step (2 ^ k) q p r s
      (bit_and_split k q p (r / 2) (s / 2) (omega (arith, double k)) (omega (arith, double k))))

bit_or_split_step :
    (w q p r s : ℕ)
    → bit_or (q * w + r / 2) (p * w + s / 2) ≡ bit_or q p * w + bit_or (r / 2) (s / 2)
    → bit_or (q * (2 * w) + r) (p * (2 * w) + s) ≡ bit_or q p * (2 * w) + bit_or r s
bit_or_split_step w q p r s ih =
    rw
      (
        or_low_digit (q * (2 * w) + r) (p * (2 * w) + s),
        or_low_digit r s,
        halve_field q r w,
        halve_field p s w,
        parity_field q r w,
        parity_field p s w,
        ih,
      )
      (omega arith)

pub bit_or_split :
    (k q p r s : ℕ)
    → r < 2 ^ k
    → s < 2 ^ k
    → bit_or (q * 2 ^ k + r) (p * 2 ^ k + s) ≡ bit_or q p * 2 ^ k + bit_or r s
bit_or_split zero q p r s hr hs =
    let er : r ≡ 0 = omega arith in let es : s ≡ 0 = omega arith in rw (er, es) (ground arith)
bit_or_split (suc k) q p r s hr hs = rw (double k) (
    bit_or_split_step (2 ^ k) q p r s
      (bit_or_split k q p (r / 2) (s / 2) (omega (arith, double k)) (omega (arith, double k))))

bit_and-zero_of_le : (k a : ℕ) → a ≤ k → bit_and a 0 ≡ 0
bit_and-zero_of_le k zero h = refl
bit_and-zero_of_le zero (suc a) h = absurd (omega arith)
bit_and-zero_of_le (suc k) (suc a) h =
    omega (arith, and_low_digit (suc a) 0, bit_and-zero_of_le k (suc a / 2) (omega arith))

pub bit_and-zero : (a : ℕ) → bit_and a 0 ≡ 0
bit_and-zero a = bit_and-zero_of_le a a (le_refl a)

bit_or-zero_of_le : (k a : ℕ) → a ≤ k → bit_or a 0 ≡ a
bit_or-zero_of_le k zero h = refl
bit_or-zero_of_le zero (suc a) h = absurd (omega arith)
bit_or-zero_of_le (suc k) (suc a) h =
    omega (arith, or_low_digit (suc a) 0, bit_or-zero_of_le k (suc a / 2) (omega arith))

pub bit_or-zero : (a : ℕ) → bit_or a 0 ≡ a
bit_or-zero a = bit_or-zero_of_le a a (le_refl a)

pub zero-bit_or : (a : ℕ) → bit_or 0 a ≡ a
zero-bit_or a = simp bit_or-bitwise

pub zero-bit_and : (a : ℕ) → bit_and 0 a ≡ 0
zero-bit_and a = simp bit_and-bitwise

bit_and_ones : (k r : ℕ) → r < 2 ^ k → bit_and r (2 ^ k - 1) ≡ r
bit_and_ones zero r h = rw (bit_and-zero r) (omega arith)
bit_and_ones (suc k) r h =
    let half : (2 ^ suc k - 1) / 2 ≡ 2 ^ k - 1 = omega (arith, double k, one-le-pow k 2) in
    let odd : (2 ^ suc k - 1) % 2 ≡ 1 = omega (arith, double k, one-le-pow k 2) in
    rw
      (and_low_digit r (2 ^ suc k - 1), half, odd, bit_and_ones k (r / 2) (omega (arith, double k)))
      (omega arith)

bit_and_low_fields : (k q r : ℕ) → r < 2 ^ k → bit_and (q * 2 ^ k + r) (2 ^ k - 1) ≡ r
bit_and_low_fields k q r h =
    ground
      (arith, one-le-pow k 2, bit_and_split k q 0 r (2 ^ k - 1), bit_and-zero q, bit_and_ones k r h)

-- A mask of `k` ones keeps the remainder by `2 ^ k`.
pub bit_and_low : (k a : ℕ) → bit_and a (2 ^ k - 1) ≡ a % 2 ^ k
bit_and_low k a = ground (
  arith,
  one-le-pow k 2,
  div-add-mod' a (2 ^ k),
  mod-lt a {m = 2 ^ k},
  bit_and_low_fields k (a / 2 ^ k) (a % 2 ^ k),
)

-- `|` puts a field below bit `k` beside the bits from `k` on.
pub bit_or_fields : (k q r : ℕ) → r < 2 ^ k → bit_or (q * 2 ^ k) r ≡ q * 2 ^ k + r
bit_or_fields k q r h =
    ground (arith, one-le-pow k 2, bit_or_split k q 0 0 r, bit_or-zero q, zero-bit_or r)

pub bit_or_fields_swap : (k q r : ℕ) → r < 2 ^ k → bit_or r (q * 2 ^ k) ≡ q * 2 ^ k + r
bit_or_fields_swap k q r h =
    ground (arith, one-le-pow k 2, bit_or_split k 0 q r 0, zero-bit_or q, bit_or-zero r)

-- The mask 0xFFFFF000 clears the offset in a page.
pub bit_and_page : (a : ℕ) → a < 2 ^ 32 → bit_and a 0xFFFFF000 ≡ a / 4096 * 4096
bit_and_page a h = ground (
  arith,
  bit_and_split 12 (a / 4096) 0xFFFFF (a % 4096) 0,
  bit_and-zero (a % 4096),
  bit_and_low 20 (a / 4096),
)

bit_and_le_of_le : (k a b : ℕ) → a ≤ k → bit_and a b ≤ a
bit_and_le_of_le k zero b h = omega (arith, zero-bit_and b)
bit_and_le_of_le zero (suc a) b h = absurd (omega arith)
bit_and_le_of_le (suc k) (suc a) b h =
    omega (arith, and_low_digit (suc a) b, bit_and_le_of_le k (suc a / 2) (b / 2) (omega arith))

pub bit_and_le : (a b : ℕ) → bit_and a b ≤ a
bit_and_le a b = bit_and_le_of_le a a b (le_refl a)

-- `a | r` adds r to a multiple of a power of two above r.
pub bit_or-add : (k q r a : ℕ) → a ≡ q * 2 ^ k → r < 2 ^ k → bit_or a r ≡ a + r
bit_or-add k q r a e h = rw e (bit_or_fields k q r h)

-- `|` with a multiple of 2 ^ k leaves the bits below k.
pub bit_or-above :
    (k q p r a b : ℕ)
    → a ≡ q * 2 ^ k + r
    → b ≡ p * 2 ^ k
    → r < 2 ^ k
    → bit_or a b ≡ bit_or q p * 2 ^ k + r
bit_or-above k q p r a b ea eb h =
    rw (ea, eb) (ground (arith, one-le-pow k 2, bit_or_split k q p r 0, bit_or-zero r))
