-- ===== src/Symbol/Resolve.antt =====
-- Which entry `sm_resolve` of src/kernel/symbol.cpp finds.
use Prim.Native.Nat.{max}
use klos.Base.{
  ℕ, zero, suc, ◌+◌, ◌<◌, ◌≤◌, ◌≡◌, ◌≢◌, refl, ap, ◌∙◌, inl, inr, true, false, ◌&&◌, some, ltb,
  ◌==◌, ==_false, if◌then◌else◌, Bool-cases, arith,
}
use klos.Symbol.{Symbols, resolve_loop, sm_resolve}

module _ {Name : Type 0} (sm_table : Symbols Name) where
  open sm_table use {address, name}

  -- The table ends at entry n, with the address 0xFFFFFFFF, and nowhere before.
  pub record EndsAt (n : ℕ) : Type 0 where
    pub marked : address n ≡ 0xFFFFFFFF
    pub unmarked : (i : ℕ) → i < n → address i ≢ 0xFFFFFFFF

  -- The highest address below the target among the first n entries, or 0.
  unfoldable pub highest_below : (target n : ℕ) → ℕ
  highest_below target zero = 0
  highest_below target (suc n) =
      if ltb (address n) target
      then max (highest_below target n) (address n)
      else highest_below target n

  resolve_loop-highest :
      (fuel i j n target : ℕ)
      → EndsAt n
      → target < 0xFFFFFFFF
      → i ≤ n
      → n < i + fuel
      → address j ≡ highest_below target i
      → (b : ℕ) × (resolve_loop sm_table fuel i j target ≡ some b)
        × (address b ≡ highest_below target n)
  unfolding resolve_loop highest_below
  resolve_loop-highest zero i j n target e t le h top = absurd (omega arith)
  resolve_loop-highest (suc fuel) i j n target e t le h top = elim (Bool-cases (i == n)) [
    | inl here ↦
        let same : i ≡ n = ground arith in
        let last : address i ≡ 0xFFFFFFFF = ap address same ∙ e.marked in
        (j, ground arith, top ∙ ap (highest_below target) same)
    | inr there ↦
        let here : (address i == 0xFFFFFFFF) ≡ false =
          ==_false (address i) 0xFFFFFFFF (e.unmarked i (ground arith)) in
        let best : ℕ = if ltb (address i) target && ltb (address j) (address i) then i else j in
        let (b, run, v) =
          resolve_loop-highest fuel (suc i) best n target e t (ground arith) (ground arith)
            (ground arith) in
        (b, rw here run, v)
  ]

  -- For a table that starts with the address 0 and ends at entry n, and an address below 0xFFFFFFFF,
  -- `sm_resolve` returns within n + 1 rounds the name of an entry whose address is the highest one
  -- below it, so that an address at which a symbol starts gets the symbol before.
  pub sm_resolve-highest :
      (fuel n target : ℕ)
      → EndsAt n
      → address 0 ≡ 0
      → target < 0xFFFFFFFF
      → n < fuel
      → (b : ℕ) × (sm_resolve sm_table fuel target ≡ some (name b))
        × (address b ≡ highest_below target n)
  unfolding sm_resolve highest_below
  sm_resolve-highest fuel n target e zero_first t h =
      let (b, run, v) =
        resolve_loop-highest fuel 0 0 n target e t (omega arith) (omega arith) zero_first in
      (b, rw (run, sm_resolve) refl, v)

  resolve_loop-some :
      (fuel i j n target : ℕ)
      → EndsAt n
      → i ≤ n
      → n < i + fuel
      → (b : ℕ) × (resolve_loop sm_table fuel i j target ≡ some b)
  unfolding resolve_loop
  resolve_loop-some zero i j n target e le h = absurd (omega arith)
  resolve_loop-some (suc fuel) i j n target e le h = elim (Bool-cases (i == n)) [
    | inl here ↦
        let same : i ≡ n = ground arith in
        let last : (address i == 0xFFFFFFFF) ≡ true =
          ap (λ k. address k == 0xFFFFFFFF) same ∙ ap (λ a. a == 0xFFFFFFFF) e.marked in
        (if ltb (address i) target && ltb (address j) (address i) then i else j, rw last refl)
    | inr there ↦
        let here : (address i == 0xFFFFFFFF) ≡ false =
          ==_false (address i) 0xFFFFFFFF (e.unmarked i (ground arith)) in
        let best : ℕ = if ltb (address i) target && ltb (address j) (address i) then i else j in
        let (b, run) =
          resolve_loop-some fuel (suc i) best n target e (ground arith) (ground arith) in
        (b, rw here run)
  ]

  -- The search of a table that ends returns, for every address.
  pub sm_resolve-some :
      (fuel n target : ℕ)
      → EndsAt n
      → n < fuel
      → (x : Name) × (sm_resolve sm_table fuel target ≡ some x)
  unfolding sm_resolve
  sm_resolve-some fuel n target e h =
      let (b, run) = resolve_loop-some fuel 0 0 n target e (omega arith) (omega arith) in
      (name b, rw (run, sm_resolve) refl)
