-- ===== src/Process/Extract.antt =====
-- `pr_extract_process` removes a process from the list and leaves a list without it as it is.
use klos.Base.{
  ℕ, zero, suc, ◌+◌, ◌<◌, ◌≡◌, refl, ◌≢◌, ◌∙◌, sym, subst, inl, inr, some, List, [], ◌∷◌, arith,
  length, ◌==◌, Bool-cases, ◌∉◌, Distinct, erase,
}
use klos.Process.{Processes, null, set_next, extract_loop, pr_extract_process}
use klos.Process.Chain.{
  Chain, links, IsList, Chain-frame, SameButLinks, set_next-SameButLinks, links-set_next,
}

-- The outcome of the loop behind the process `x`, before the processes `xs`.
record Extracted (fuel x proc : ℕ) (xs : List ℕ) (t u : Processes) : Type 0 where
  done : extract_loop fuel x proc t ≡ some u
  chain : Chain (links u) (links u x) (erase proc xs)
  frame : (a : ℕ) → a ∉ (x ∷ xs) → links u a ≡ links t a
  same : SameButLinks t u
  root : u.root ≡ t.root

SameButLinks-refl : (t : Processes) → SameButLinks t t
SameButLinks-refl t = record { fields = λ a. refl; current = refl; next_pid = refl }

extract_loop-Extracted :
    (fuel x proc : ℕ) (xs : List ℕ) (t : Processes)
    → x ≢ null
    → proc ≢ null
    → Distinct (x ∷ xs)
    → Chain (links t) (links t x) xs
    → length xs + 1 < fuel
    → (u : Processes) × Extracted fuel x proc xs t u
unfolding extract_loop erase
extract_loop-Extracted zero x proc xs t nx np dis c enough = absurd (omega arith)
extract_loop-Extracted (suc zero) x proc xs t nx np dis c enough = absurd (omega arith)
extract_loop-Extracted (suc (suc fuel)) x proc [] t nx np dis c enough = (
  t,
  record {
    done = ground arith;
    chain = c;
    frame = λ a h. refl;
    same = SameButLinks-refl t;
    root = refl;
  },
)
extract_loop-Extracted (suc (suc fuel)) x proc (y ∷ ys) t nx np dis c enough =
    elim (Bool-cases (proc == y)) [
      | inl found ↦ (
        set_next x (links t proc) t,
        record {
          done = ground arith;
          chain = rw found (
              let first : links (set_next x (links t proc) t) x ≡ links t y =
                ground (arith, links-set_next x (links t proc) x t) in
              Chain-frame (links t) (links (set_next x (links t proc) t)) _ ys
                (λ a i. ground (arith, links-set_next x (links t proc) a t))
                (subst (λ p. Chain (links t) p ys) (sym first) c.2));
          frame = λ a h. ground (arith, links-set_next x (links t proc) a t);
          same = set_next-SameButLinks x (links t proc) t;
          root = refl;
        },
      )
      | inr other ↦
          let (u, r) =
            extract_loop-Extracted (suc fuel) y proc ys t c.1 np dis.1 c.2 (omega arith) in
          (
            u,
            record {
              done = ground (arith, r.done);
              chain = rw other (ground (arith, r.frame x), c.1, r.chain);
              frame = λ a h. ground (arith, r.frame a);
              same = r.same;
              root = r.root;
            },
          )
    ]

null-not-mem : (f : ℕ → ℕ) (p : ℕ) (xs : List ℕ) → Chain f p xs → null ∉ xs
null-not-mem f p [] c = refl
null-not-mem f p (x ∷ xs) c = ground (arith, null-not-mem f (f x) xs c.2)

erase_absent : (p : ℕ) (xs : List ℕ) → p ∉ xs → erase p xs ≡ xs
unfolding erase
erase_absent p [] h = refl
erase_absent p (x ∷ xs) h = ground (arith, erase_absent p xs)

not-mem-erase : (a p : ℕ) (xs : List ℕ) → a ∉ xs → a ∉ erase p xs
unfolding erase
not-mem-erase a p [] h = refl
not-mem-erase a p (x ∷ xs) h = ground (arith, not-mem-erase a p xs)

erase-Distinct : (p : ℕ) (xs : List ℕ) → Distinct xs → Distinct (erase p xs)
unfolding erase
erase-Distinct p [] d = tt
erase-Distinct p (x ∷ xs) d = ground (arith, erase-Distinct p xs, not-mem-erase x p xs)

extract-Chain :
    (fuel proc : ℕ) (xs : List ℕ) (t : Processes)
    → proc ≢ null
    → Distinct xs
    → Chain (links t) t.root xs
    → length xs < fuel
    → (u : Processes) × (pr_extract_process fuel proc t ≡ some u)
      × Chain (links u) u.root (erase proc xs)
      × SameButLinks t u
unfolding pr_extract_process erase
extract-Chain zero proc xs t np dis c enough = absurd (omega arith)
extract-Chain (suc fuel) proc [] t np dis c enough = (t, ground arith, c, SameButLinks-refl t)
extract-Chain (suc fuel) proc (x ∷ xs) t np dis c enough = elim (Bool-cases (proc == x)) [
  | inl head ↦ (
    record t { root = links t proc },
    ground arith,
    rw head (subst (λ p. Chain (links t) (links t p) xs) (ground arith) c.2),
    record { fields = λ a. refl; current = refl; next_pid = refl },
  )
  | inr other ↦
      let (u, r) = extract_loop-Extracted (suc fuel) x proc xs t c.1 np dis c.2 (omega arith) in
      (u, ground (arith, r.done), rw other (r.root ∙ c.0, c.1, r.chain), r.same)
]

-- Given more fuel than the list has processes, `pr_extract_process` ends with a list of the same
-- processes in the same order less the one it is given, which need not be in the list and may be
-- NULL, and changes nothing but links and the root.
pub pr_extract_process-IsList :
    (fuel proc : ℕ) (t : Processes) (xs : List ℕ)
    → IsList t xs
    → length xs < fuel
    → (u : Processes) × (pr_extract_process fuel proc t ≡ some u)
      × IsList u (erase proc xs)
      × SameButLinks t u
pr_extract_process-IsList fuel zero t xs l enough =
    let gone = erase_absent null xs (null-not-mem (links t) t.root xs l.chain) in
    (t, unfold pr_extract_process in refl, rw gone l, SameButLinks-refl t)
pr_extract_process-IsList fuel (suc p) t xs l enough =
    let (u, run, c, same) =
      extract-Chain fuel (suc p) xs t (λ e. absurd (omega arith)) l.distinct l.chain enough in
    (u, run, record { chain = c; distinct = erase-Distinct (suc p) xs l.distinct }, same)
