-- ===== src/Paging/Fault/Copies.antt =====
-- The loop of `pg_resolve_fault` in src/kernel/paging.cpp that counts the processes that share memory.
use klos.Base.{
  ℕ, zero, suc, ◌+◌, ◌<◌, ◌≡◌, ◌≢◌, ◌∈◌, refl, sym, ap, subst, ◌∙◌, Bool, true, some, ◌==◌,
  if◌then◌else◌, List, [], ◌∷◌, length, Bool-cases, inl, inr, ==_false, arith,
}
use klos.Process.{Processes, null}
use klos.Process.Chain.{Chain, links, IsList}
use klos.Paging.Fault.{is_copy, copies_loop}

-- The number of the sharers among the processes.
unfoldable pub count : (ℕ → Bool) → List ℕ → ℕ
count test [] = 0
count test (x ∷ xs) = if test x then suc (count test xs) else count test xs

-- The last of the sharers, and `last` where there is none.
unfoldable pub last_of : (ℕ → Bool) → ℕ → List ℕ → ℕ
last_of test last [] = last
last_of test last (x ∷ xs) = last_of test (if test x then x else last) xs

unfoldable pub shares : (entry_of : ℕ → ℕ) → (d : ℕ) → Processes → ℕ → Bool
shares entry_of d t x = is_copy (entry_of (t.at x).page_table) d x t.current

copies_loop_from :
    (fuel : ℕ) (entry_of : ℕ → ℕ) (d p : ℕ) (t : Processes) (n last : ℕ) (xs : List ℕ)
    → Chain (links t) p xs
    → length xs < fuel
    → copies_loop fuel entry_of d p t n last
      ≡ some (n + count (shares entry_of d t) xs, last_of (shares entry_of d t) last xs)
unfolding copies_loop shares count last_of
copies_loop_from zero entry_of d p t n last xs c h = absurd (omega arith)
copies_loop_from (suc fuel) entry_of d p t n last [] c h =
    rw c (ap (λ k. some (k, last)) (omega arith))
copies_loop_from (suc fuel) entry_of d p t n last (x ∷ xs) c h =
    rw (c.0, ==_false x null c.1)
      (elim (Bool-cases (is_copy (entry_of (t.at x).page_table) d x t.current)) [
        | inl e ↦ rw e (
            copies_loop_from fuel entry_of d (links t x) t (n + 1) x xs c.2 (omega arith)
            ∙ ap (λ k. some (k, last_of (shares entry_of d t) x xs)) (omega arith))
        | inr e ↦ rw e (copies_loop_from fuel entry_of d (links t x) t n last xs c.2 (omega arith))
      ])

-- With more rounds than there are processes, the loop ends, with the number of the processes other than
-- the current one whose present entry has the address of d, and the last of them.
pub copies_loop-count :
    (fuel : ℕ) (entry_of : ℕ → ℕ) (d last : ℕ) (t : Processes) (xs : List ℕ)
    → IsList t xs
    → length xs < fuel
    → copies_loop fuel entry_of d t.root t 0 last
      ≡ some (count (shares entry_of d t) xs, last_of (shares entry_of d t) last xs)
copies_loop-count fuel entry_of d last t xs v h =
    copies_loop_from fuel entry_of d t.root t 0 last xs v.chain h
    ∙ ap (λ k. some (k, last_of (shares entry_of d t) last xs)) (omega arith)

last_of-none :
    (test : ℕ → Bool) (last : ℕ) (xs : List ℕ) → count test xs ≡ 0 → last_of test last xs ≡ last
unfolding count last_of
last_of-none test last [] h = refl
last_of-none test last (x ∷ xs) h = elim (Bool-cases (test x)) [
  | inl e ↦ ground (arith, e, h)
  | inr e ↦ rw e (last_of-none test last xs (ground (arith, e, h)))
]

abbrev pub IsSharer : (ℕ → Bool) → List ℕ → ℕ → Type 0
IsSharer test xs y = (y ∈ xs) × (test y ≡ true)

IsSharer-later :
    (test : ℕ → Bool) (x y : ℕ) (xs : List ℕ) → IsSharer test xs y → IsSharer test (x ∷ xs) y
IsSharer-later test x y xs h = (ground (arith, h.0), h.1)

-- Where there are sharers, the last of them is one.
pub last_of-IsSharer :
    (test : ℕ → Bool) (last : ℕ) (xs : List ℕ)
    → count test xs ≢ 0
    → IsSharer test xs (last_of test last xs)
unfolding count last_of
last_of-IsSharer test last [] h = absurd (h refl)
last_of-IsSharer test last (x ∷ xs) h = elim (Bool-cases (test x)) [
  | inl e ↦
      subst (λ b. IsSharer test (x ∷ xs) (last_of test (if b then x else last) xs)) (sym e)
        (elim (Bool-cases (count test xs == 0)) [
          | inl z ↦
              subst (IsSharer test (x ∷ xs)) (sym (last_of-none test x xs (ground (arith, z))))
                (ground arith, e)
          | inr z ↦
              IsSharer-later test x (last_of test x xs) xs
                (last_of-IsSharer test x xs (ground (arith, z)))
        ])
  | inr e ↦
      subst (λ b. IsSharer test (x ∷ xs) (last_of test (if b then x else last) xs)) (sym e)
        (IsSharer-later test x (last_of test last xs) xs
          (last_of-IsSharer test last xs (ground (arith, e, h))))
]

pub shares-other :
    (entry_of : ℕ → ℕ) (d : ℕ) (t : Processes) (x : ℕ)
    → shares entry_of d t x ≡ true
    → x ≢ t.current
unfolding shares is_copy
shares-other entry_of d t x h = ground (arith, h)
