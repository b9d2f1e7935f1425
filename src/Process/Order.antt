-- ===== src/Process/Order.antt =====
-- Insertion keeps a list that is sorted by pid sorted.
use klos.Base.{
  ℕ, ◌+◌, ◌≤◌, ◌≡◌, ◌≢◌, ap, inl, inr, true, some, List, [], ◌∷◌, arith, length, ltb, ◌==◌,
  if◌then◌else◌, Bool-cases, ◌∉◌, count, count-cons,
}
use mathlib.Core.Path.{fun_ext}
use klos.Process.{Process, Processes, null, pr_inject_process}
use klos.Process.Chain.{IsList, SameButLinks, IsSorted}
use klos.Process.Inject.{insert_by_pid, pids, pr_inject_process-IsList}

-- The head of the list after an insertion is the process or the old head.
insert-IsSorted_behind :
    (pid : ℕ → ℕ) (x proc : ℕ) (xs : List ℕ)
    → pid x ≤ pid proc
    → IsSorted pid (x ∷ xs)
    → IsSorted pid (x ∷ insert_by_pid pid proc xs)
unfolding insert_by_pid
insert-IsSorted_behind pid x proc [] le s = (le, tt)
insert-IsSorted_behind pid x proc (y ∷ ys) le s = elim (Bool-cases (ltb (pid proc) (pid y))) [
  | inl before ↦ rw before (le, (ground arith, s.1))
  | inr after ↦ rw after (s.0, insert-IsSorted_behind pid y proc ys (ground arith) s.1)
]

insert-IsSorted :
    (pid : ℕ → ℕ) (proc : ℕ) (xs : List ℕ)
    → IsSorted pid xs
    → IsSorted pid (insert_by_pid pid proc xs)
unfolding insert_by_pid
insert-IsSorted pid proc [] s = tt
insert-IsSorted pid proc (x ∷ xs) s = elim (Bool-cases (ltb (pid proc) (pid x))) [
  | inl before ↦ rw before (ground arith, s)
  | inr after ↦ rw after (insert-IsSorted_behind pid x proc xs (ground arith) s)
]

count-insert :
    (pid : ℕ → ℕ) (a proc : ℕ) (xs : List ℕ)
    → count a (insert_by_pid pid proc xs) ≡ (if a == proc then 1 else 0) + count a xs
unfolding insert_by_pid
count-insert pid a proc [] = count-cons a proc []
count-insert pid a proc (x ∷ xs) = elim (Bool-cases (ltb (pid proc) (pid x))) [
  | inl before ↦ rw before (count-cons a proc (x ∷ xs))
  | inr after ↦
      rw (after, count-cons a x (insert_by_pid pid proc xs), count-cons a x xs)
        (omega (arith, count-insert pid a proc xs))
]

pids-SameButLinks : {t u : Processes} → SameButLinks t u → pids u ≡ pids t
pids-SameButLinks same = fun_ext λ a. ap (λ (p : Process). p.pid) (same.fields a)

-- If the pid of the process is set and the list is sorted by pid, then after `pr_inject_process` the
-- list is sorted by pid, and holds the process once more and every other as often as before.
pub pr_inject_process-IsSorted :
    (fuel proc : ℕ) (t : Processes) (xs : List ℕ)
    → proc ≢ null
    → proc ∉ xs
    → IsList t xs
    → IsSorted (pids t) xs
    → length xs ≤ fuel
    → (u : Processes) × (ys : List ℕ) × (pr_inject_process fuel proc t ≡ some (true, u))
      × IsList u ys
      × IsSorted (pids u) ys
      × ((a : ℕ) → count a ys ≡ (if a == proc then 1 else 0) + count a xs)
pr_inject_process-IsSorted fuel proc t xs np out l s enough =
    let (u, run, l', same) = pr_inject_process-IsList fuel proc np out l enough in
    (
      u,
      insert_by_pid (pids t) proc xs,
      run,
      l',
      rw (pids-SameButLinks same) (insert-IsSorted (pids t) proc xs s),
      λ a. count-insert (pids t) a proc xs,
    )
