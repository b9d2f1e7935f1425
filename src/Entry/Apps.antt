-- ===== src/Entry/Apps.antt =====
-- The two processes that `main` of src/kernel/main.cpp makes.
use klos.Base.{
  ℕ, ◌≤◌, ◌<◌, ◌≡◌, refl, ◌≢◌, sym, subst, ◌∙◌, ap, some, List, [], ◌∷◌, ltb, if◌then◌else◌, upto,
  arith,
}
use klos.Console.Write.{OnScreen}
use klos.Process.{null, pr_state_paused, Processes}
use klos.Process.Chain.{IsList}
use klos.Process.Inject.{insert_by_pid, pids}
use klos.Process.Lives.{Services, copy_stack}
use klos.Process.Creation.{Joined, pr_create_process-Joined, pr_fork_process-Joined}
use klos.Ata.{Machine}
use klos.Ata.Waits.{Ready, ata_read-some}
use klos.Entry.Costs.{Unused, two_pages-Room}
use klos.Entry.{Parts, Image, System, ata_of, with_ata, on_rest, map_page, start_apps}

-- The order in the list: by the pid that the structure of the second process held before it was made.
unfoldable pub by_pid : (t : Processes) (app1 app2 : ℕ) → List ℕ
by_pid t app1 app2 = if ltb (pids t app2) t.next_pid then app2 ∷ app1 ∷ [] else app1 ∷ app2 ∷ []

-- Two paused processes, and nothing that runs.
pub record TwoApps (t u : Processes) (app1 app2 : ℕ) : Type 0 where
  pub listed : IsList u (by_pid t app1 app2)
  pub paused1 : (u.at app1).state ≡ pr_state_paused
  pub paused2 : (u.at app2).state ≡ pr_state_paused
  pub current : u.current ≡ null
  pub other : app1 ≢ app2

in_order :
    (t u : Processes) (app1 app2 : ℕ)
    → pids u app2 ≡ pids t app2
    → pids u app1 ≡ t.next_pid
    → insert_by_pid (pids u) app2 (app1 ∷ []) ≡ by_pid t app1 app2
unfolding insert_by_pid by_pid
in_order t u app1 app2 e f =
    ap (λ p. if ltb p (pids u app1) then app2 ∷ app1 ∷ [] else app1 ∷ app2 ∷ []) e
    ∙ ap (λ q. if ltb (pids t app2) q then app2 ∷ app1 ∷ [] else app1 ∷ app2 ∷ []) f

forks-TwoApps :
    (t u v : Processes) (app1 app2 : ℕ)
    → app2 ≢ app1
    → t.current ≡ null
    → Joined t u app1 []
    → Joined u v app2 (app1 ∷ [])
    → TwoApps t v app1 app2
forks-TwoApps t u v app1 app2 ne idle j i = record {
  listed =
      subst (IsList v) (in_order t u app1 app2 (ap (λ x. x.pid) (j.others app2 ne)) j.pid) i.listed;
  paused1 = ap (λ x. x.state) (i.others app1 (λ e. ne (sym e))) ∙ j.paused;
  paused2 = i.paused;
  current = i.current ∙ j.current ∙ idle;
  other = λ e. ne (sym e);
}

module _ {S V : Type 0} (parts : Parts S) (services : Services S) (machine : Machine S)
    (image : Image) (rounds fuel : ℕ) (view : S → V) (Room Held : ℕ → V → Type 0) where
  open parts use {pg_kernel, pg_map, mm_page_allocate}
  open services use {kalloc, pg_create_user_page_directory}

  pub start_apps-TwoApps :
      (s : System S)
      → Unused parts services view Room Held
      → Room 10 (view s.kernel.rest)
      → Ready machine fuel view
      → 8 ≤ rounds
      → 0 < fuel
      → OnScreen s.console
      → s.kernel.processes.root ≡ null
      → s.kernel.processes.current ≡ null
      → (app1 : ℕ) × (app2 : ℕ) × (n : System S) × (start_apps parts services machine image rounds
            fuel s
          ≡ some (app1, app2, n))
        × TwoApps s.kernel.processes n.kernel.processes app1 app2
        × (n.interrupts ≡ s.interrupts)
  unfolding start_apps insert_by_pid
  start_apps-TwoApps s a room d h f o none_yet idle =
      let t = s.kernel.processes in
      let r = s.kernel.rest in
      let app1 = (kalloc 32 r).0 in
      let empty : IsList t [] = record { chain = none_yet; distinct = tt } in
      let (app1_set, new, room₁) = a.heap.given 9 32 r (omega arith) room in
      let (u, word, made, j, _, _, _) =
        pr_create_process-Joined services fuel s.kernel [] empty app1_set refl (omega arith) in
      let table = (u.at app1).page_table in
      let r₁ = pg_create_user_page_directory (kalloc 32 r).1 in
      let r₂ = kalloc 4096 r₁.1 in
      let k = record s.kernel { processes = u; word = word; rest = r₂.1 } in
      let mapped =
        on_rest (upto 2 (map_page parts services machine image rounds fuel table))
          (record s { kernel = k }) in
      let (disk, read, on, same) =
        ata_read-some machine fuel view rounds 0 0 0 8000 (ata_of mapped) d h o in
      let loaded = with_ata disk mapped in
      let app2 = (kalloc 32 disk.rest).0 in
      let made_directory = a.directory 8 (kalloc 32 r).1 room₁ in
      let (_, _, room₃) = a.heap.given 7 4096 r₁.1 (omega arith) made_directory.0 in
      let (_, held₃) =
        a.heap.apart 7 4096 app1 r₁.1 (omega arith) made_directory.0 (made_directory.1 app1 new) in
      let pages =
        two_pages-Room parts services view Room Held machine image rounds fuel table 1 r₂.1 a
          room₃ in
      let room₄ = subst (Room 1) (sym same) pages.0 in
      let held₄ = subst (Held app1) (sym same) (pages.1 app1 held₃) in
      let (later, _) = a.heap.apart 0 32 app1 disk.rest (omega arith) room₄ held₄ in
      let (app2_set, _, _) = a.heap.given 0 32 disk.rest (omega arith) room₄ in
      let (v, base, rest, forked, i, _, _) =
        pr_fork_process-Joined services fuel loaded.kernel app1 (app1 ∷ []) j.listed app2_set
          (ground arith) (λ e. later (sym e)) (omega arith) in
      (
        app1,
        app2,
        record loaded {
          kernel = record loaded.kernel {
            processes = v;
            word = copy_stack base (u.at app1).kernel_stack loaded.kernel.word;
            rest = rest;
          };
        },
        rw (made, read, forked) refl,
        forks-TwoApps t u v app1 app2 later idle j i,
        refl,
      )
