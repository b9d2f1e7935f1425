-- ===== src/Base/Words.antt =====
-- Fixed-width words, and stores that a write changes at one address.
use Prim.Native.Nat.{ℕ, ◌-◌, ◌+◌, ◌*◌, ◌/◌, ◌%◌, ◌^◌}
use mathlib.Core.Path.{◌≡◌}
use mathlib.Core.Logic.{◌≢◌}
use klos.Base.Tests.{◌==◌, if◌then◌else◌, ==_self, ==_false}

abbrev pub u8 : ℕ → ℕ
u8 n = n % 2 ^ 8

abbrev pub u16 : ℕ → ℕ
u16 n = n % 2 ^ 16

abbrev pub u32 : ℕ → ℕ
u32 n = n % 2 ^ 32

-- a - b on uint32_t.
abbrev pub sub32 : ℕ → ℕ → ℕ
sub32 a b = (a + 2 ^ 32 - b) % 2 ^ 32

infixl 75 ◌<<<◌ ◌>>>◌
abbrev pub ◌<<<◌ : ℕ → ℕ → ℕ
x <<< k = x * 2 ^ k

abbrev pub ◌>>>◌ : ℕ → ℕ → ℕ
x >>> k = x / 2 ^ k

-- A store after a write at one address.
module _ {ℓ} {A : Type ℓ} where
  unfoldable pub update : (ℕ → A) → ℕ → A → ℕ → A
  update f p v q = if q == p then v else f q

  pub update_self : (f : ℕ → A) (p : ℕ) (v : A) → update f p v p ≡ v
  unfolding update
  update_self f p v = rw (==_self p)

  pub update_ne : (f : ℕ → A) (p q : ℕ) (v : A) → q ≢ p → update f p v q ≡ f q
  unfolding update
  update_ne f p q v h = rw (==_false q p h)
