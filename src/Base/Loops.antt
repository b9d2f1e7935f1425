-- ===== src/Base/Loops.antt =====
-- Counting loops, and steps in sequence of which one may fail.
use Prim.Native.Nat.{ℕ, zero, suc}
use mathlib.Core.Option.{Option, none, some}

-- `for(i = 0; i < n; i++) body(i);`
unfoldable pub upto {ℓ} : {A : Type ℓ} → ℕ → (ℕ → A → A) → A → A
upto zero body m = m
upto (suc n) body m = body n (upto n body m)

infixl 5 ◌>>=◌
abbrev pub ◌>>=◌ {ℓ κ} : {A : Type ℓ} {B : Type κ} → Option A → (A → Option B) → Option B
none >>= f = none
some a >>= f = f a
