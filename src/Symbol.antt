-- ===== src/Symbol.antt =====
-- Finding the name of an address in src/kernel/symbol.cpp. The build fills the table.
pub mod Resolve
mod Examples
use klos.Base.{ℕ, zero, suc, ◌&&◌, Option, none, some, ltb, ◌==◌, if◌then◌else◌}

-- The addresses and the names of `sm_table`.
pub record Symbols (Name : Type 0) : Type 0 where
  pub address : ℕ → ℕ
  pub name : ℕ → Name

module _ {Name : Type 0} (sm_table : Symbols Name) where
  -- The loop of `sm_resolve` from i on, with j the best entry so far; `none` means that the fuel ran
  -- out.
  unfoldable pub resolve_loop : (fuel i j address : ℕ) → Option ℕ
  resolve_loop zero i j address = none
  resolve_loop (suc fuel) i j address =
      let here = sm_table.address i in
      let best = if ltb here address && ltb (sm_table.address j) here then i else j in
      let rest = resolve_loop fuel (suc i) best address in
      if here == 0xFFFFFFFF then some best else rest

  unfoldable pub sm_resolve : (fuel address : ℕ) → Option Name
  unfolding resolve_loop
  sm_resolve fuel address = elim (resolve_loop fuel 0 0 address) [
    | none ↦ none
    | some j ↦ some (sm_table.name j)
  ]
