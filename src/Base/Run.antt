-- ===== src/Base/Run.antt =====
-- The result of code that may loop or touch memory that is not there.

-- `fault` is an access through NULL; `out_of_fuel` says that the loops were not given enough rounds.
pub data Run {ℓ} (A : Type ℓ) : Type ℓ where
  ok : A → Run A
  fault : Run A
  out_of_fuel : Run A

infixl 5 ◌>>=◌
abbrev pub ◌>>=◌ {ℓ κ} : {A : Type ℓ} {B : Type κ} → Run A → (A → Run B) → Run B
ok a >>= f = f a
fault >>= f = fault
out_of_fuel >>= f = out_of_fuel
