-- ===== src/Symbol/Examples.antt =====
-- A table with one symbol.
use klos.Base.{ℕ, ◌≡◌, refl, some, ◌==◌, if◌then◌else◌, arith}
use klos.Symbol.{Symbols, sm_resolve}
use klos.Symbol.Resolve.{EndsAt, highest_below, sm_resolve-highest}

abbrev one_symbol : Symbols ℕ
one_symbol = record {
  address = λ i. if i == 0 then 0 else (if i == 1 then 0xC0100000 else 0xFFFFFFFF);
  name = λ i. i;
}

one_symbol-EndsAt : EndsAt one_symbol 2
one_symbol-EndsAt = record { marked = refl; unmarked = λ i h e. ground arith }

sm_resolve-highest_example :
    (b : ℕ) × (sm_resolve one_symbol 3 0xC0100010 ≡ some b)
    × (one_symbol.address b ≡ highest_below one_symbol 0xC0100010 2)
sm_resolve-highest_example =
    sm_resolve-highest one_symbol 3 2 0xC0100010 one_symbol-EndsAt refl (omega arith) (omega arith)

-- The start of the symbol itself.
symbol_start : sm_resolve one_symbol 3 0xC0100000 ≡ some 0
unfolding sm_resolve
symbol_start = refl
