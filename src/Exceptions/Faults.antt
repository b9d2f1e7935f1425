-- ===== src/Exceptions/Faults.antt =====
-- How the handler of src/kernel/exceptions.cpp answers a page fault.
use klos.Base.{
  ℕ, ◌+◌, ◌^◌, ◌<◌, ◌≤◌, ◌≡◌, refl, inl, inr, false, some, List, [], ◌∷◌, ◌++◌, length, ◌==◌,
  ==_false, ==_self, update, Bool-cases, arith,
}
use klos.Base.Text.{codes}
use klos.Console.{Console, Argument, number, string}
use klos.Console.Write.{OnScreen}
use klos.Debug.Trace.{print_all-Prints}
use klos.Process.{Processes, pr_state_paused, pr_state_running, Outcome, pr_schedule}
use klos.Process.Chain.{links, IsList, Chain-frame}
use klos.Process.Schedule.{states, first_running, pr_schedule-first_running, ne-null_middle}
use klos.Process.Lives.{set_process, pr_getpid, pr_get_current, pr_suspend}
use klos.Paging.{PageHeap, directory_entry, pde_copyonwrite}
use klos.Paging.Map.{entry}
use klos.Paging.Fault.{Spaces, is_shared, pte_copyonwrite, own_table, own_page, pg_resolve_fault}
use klos.Symbol.{Symbols}
use klos.Exceptions.{
  System, Ending, stopped, switched, Saved, ending_of, leave, suspend_current, page_fault,
  is_cexception,
}

-- The processes after the current one has been paused.
abbrev pub pause : Processes → Processes
pause t = set_process t.current (record (t.at t.current) { state = pr_state_paused }) t

unfoldable pub ended : Outcome → Ending
ended Outcome.returned = stopped
ended Outcome.halted = stopped
ended (Outcome.resumed p) = switched p

ending_of-first_running :
    (state : ℕ → ℕ) (zs : List ℕ)
    → ending_of (first_running state zs) ≡ some (ended (first_running state zs))
unfolding first_running ending_of ended
ending_of-first_running state [] = refl
ending_of-first_running state (z ∷ zs) = elim (Bool-cases (state z == pr_state_running)) [
  | inl e ↦ rw e refl
  | inr e ↦ rw e (ending_of-first_running state zs)
]

links-pause : (t : Processes) (a : ℕ) → links (pause t) a ≡ links t a
unfolding update
links-pause t a = ground arith

pause-IsList : (t : Processes) (xs : List ℕ) → IsList t xs → IsList (pause t) xs
pause-IsList t xs l = record {
  chain = Chain-frame (links t) (links (pause t)) t.root xs (λ a i. links-pause t a) l.chain;
  distinct = l.distinct;
}

-- A page whose entries in the directory and in the table of the active process are not marked for
-- sharing.
pub record IsPlain (virt : ℕ) (s : Spaces) : Type 0 where
  pub own_directory :
      is_shared pde_copyonwrite (directory_entry s.paging s.paging.active virt) ≡ false
  pub own_page : is_shared pte_copyonwrite (entry s.paging.active virt s.paging) ≡ false

module _ (heap : PageHeap) (sm_table : Symbols (List ℕ)) (rounds entries fuel : ℕ) where
  leave-ended :
      (t : Processes) (front bs : List ℕ)
      → IsList t (front ++ t.current ∷ bs)
      → length front + length bs < fuel
      → leave heap sm_table rounds entries fuel t
        ≡ some (some (ended (first_running (states (pause t)) (bs ++ front))), pause t)
  unfolding leave pr_suspend pr_get_current
  leave-ended t front bs l enough =
      let o = first_running (states (pause t)) (bs ++ front) in
      let run : pr_schedule fuel (pause t) ≡ some o =
        pr_schedule-first_running fuel (pause t) front bs
          (pause-IsList t (front ++ t.current ∷ bs) l) enough in
      rw (==_self t.current, run, ending_of-first_running (states (pause t)) (bs ++ front), run)
        refl

  not_resolved :
      (virt : ℕ) (s : Spaces) → IsPlain virt s → pg_resolve_fault heap fuel virt s ≡ some (false, s)
  unfolding pg_resolve_fault own_table own_page entry
  not_resolved virt s p = rw (p.own_directory, p.own_page) refl

  -- A page fault at an address whose entries are not marked for sharing, with the current process
  -- in the list, the cursor on the screen, eight rounds for a tab and a pid of 32 bits: the handler
  -- does not go on to its end. The current process is paused, and no other process and no page
  -- table is changed; control goes to the first running process after it, going round, and the
  -- processor stops where there is none.
  pub page_fault-leaves :
      (error_code : ℕ) (front bs : List ℕ) (saved : Saved) (s : System)
      → IsPlain saved.cr2 s.spaces
      → IsList s.spaces.processes (front ++ s.spaces.processes.current ∷ bs)
      → length front + length bs < fuel
      → 8 ≤ rounds
      → OnScreen s.console
      → pr_getpid s.spaces.processes < 2 ^ 32
      → (c : Console) × (is_cexception heap sm_table rounds entries fuel 14 error_code saved s
          ≡ some (
            ended (first_running (states (pause s.spaces.processes)) (bs ++ front)),
            record {
              console = c;
              spaces = record s.spaces { processes = pause s.spaces.processes };
            },
          ))
        × OnScreen c
  unfolding is_cexception page_fault suspend_current pr_get_current
  page_fault-leaves error_code front bs saved s plain l enough h on pid =
      let t = s.spaces.processes in
      let here = ne-null_middle (links t) t.root t.current front bs l.chain in
      let report : List Argument =
        string (codes "Suspending process: ") ∷ number (pr_getpid t) ∷ string (codes "\n") ∷ [] in
      let (c, printed, there) = print_all-Prints rounds report s.console h (pid, tt) on in
      (
        c,
        rw
            (
              not_resolved saved.cr2 s.spaces plain,
              ==_false t.current 0 here,
              printed,
              leave-ended t front bs l enough,
            )
            refl,
        there,
      )
