-- ===== src/Process/Termination.antt =====
-- `pr_terminate` of src/kernel/process.cpp, alone and after `pr_fork_process`.
use klos.Base.{
  ℕ, suc, ◌<◌, ◌≡◌, ◌≢◌, refl, subst, ◌∙◌, some, List, [], ◌∷◌, length, ltb, Bool-cases, erase, inl,
  inr, ◌∉◌, arith,
}
use klos.Process.{null, Processes}
use klos.Process.Chain.{IsList, SameButLinks}
use klos.Process.Inject.{insert_by_pid, pids}
use klos.Process.Extract.{pr_extract_process-IsList}
use klos.Process.Lives.{Services, Kernel, copy_stack, pr_fork_process, pr_terminate}
use klos.Process.Creation.{unlinked, place, pr_fork_process-Joined}

erase-insert : (pid : ℕ → ℕ) (p : ℕ) (xs : List ℕ) → p ∉ xs → erase p (insert_by_pid pid p xs) ≡ xs
unfolding insert_by_pid erase
erase-insert pid p [] out = ground arith
erase-insert pid p (x ∷ xs) out = elim (Bool-cases (ltb (pid p) (pid x))) [
  | inl before ↦ rw before (ground arith)
  | inr after ↦ rw after (ground (arith, erase-insert pid p xs))
]

length-insert :
    (pid : ℕ → ℕ) (p : ℕ) (xs : List ℕ) → length (insert_by_pid pid p xs) ≡ suc (length xs)
unfolding insert_by_pid
length-insert pid p [] = refl
length-insert pid p (x ∷ xs) = elim (Bool-cases (ltb (pid p) (pid x))) [
  | inl before ↦ rw before refl
  | inr after ↦ rw after (ground (arith, length-insert pid p xs))
]

module _ {S : Type 0} (services : Services S) (fuel : ℕ) (k : Kernel S) where
  open services use {kfree, pg_free_user_page_directory}

  -- What the heap and paging are left with: the page table, the stack and the structure are given back.
  abbrev pub given_back : (proc : ℕ) → Processes → S → S
  given_back proc u r =
      kfree proc
        (kfree (u.at proc).kernel_stack (pg_free_user_page_directory (u.at proc).page_table r))

  pr_terminate-IsList :
      (proc : ℕ) (xs : List ℕ)
      → IsList k.processes xs
      → length xs < fuel
      → (u : Processes) × (pr_terminate services fuel proc k
          ≡ some (record k { processes = u; rest = given_back proc u k.rest }))
        × IsList u (erase proc xs)
        × SameButLinks k.processes u
  unfolding pr_terminate
  pr_terminate-IsList proc xs l enough =
      let (u, run, listed, same) = pr_extract_process-IsList fuel proc k.processes xs l enough in
      (u, rw run refl, listed, same)

module _ {S : Type 0} (services : Services S) (fuel : ℕ) (k : Kernel S) where
  -- On a list of processes, with an unused address for the new structure and fuel for two processes more than the
  -- list has, `pr_terminate` of the process that `pr_fork_process` has just made returns and leaves the list as it was before
  -- the fork; the other processes keep everything but their links, the current process is the same, and the table, the stack and the
  -- structure of the new process are given back.
  pub pr_terminate-pr_fork_process :
      (src : ℕ) (xs : List ℕ)
      → IsList k.processes xs
      → place services fuel k ≢ null
      → place services fuel k ∉ xs
      → src ≢ place services fuel k
      → suc (length xs) < fuel
      → (n : Kernel S) × (m : Kernel S) × (pr_fork_process services fuel src k
          ≡ some (place services fuel k, n))
        × (pr_terminate services fuel (place services fuel k) n ≡ some m)
        × IsList m.processes xs
        × ((a : ℕ)
            → a ≢ place services fuel k
            → unlinked (m.processes.at a) ≡ unlinked (k.processes.at a))
        × (m.processes.current ≡ k.processes.current)
        × (m.rest ≡ given_back services fuel k (place services fuel k) m.processes n.rest)
  pr_terminate-pr_fork_process src xs l ne out other enough =
      let p = place services fuel k in
      let t = k.processes in
      let (v, base, rest, run, j, _, _) =
        pr_fork_process-Joined services fuel k src xs l ne out other (omega arith) in
      let n = record k {
        processes = v;
        word = copy_stack base (t.at src).kernel_stack k.word;
        rest = rest;
      } in
      let (u, ended, listed, same) =
        pr_terminate-IsList services fuel n p (insert_by_pid (pids t) p xs) j.listed
          (omega (arith, length-insert (pids t) p xs)) in
      (
        n,
        record n { processes = u; rest = given_back services fuel n p u rest },
        run,
        ended,
        subst (IsList u) (erase-insert (pids t) p xs out) listed,
        λ a other. same.fields a ∙ j.others a other,
        same.current ∙ j.current,
        refl,
      )
