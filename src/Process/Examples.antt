-- ===== src/Process/Examples.antt =====
-- Two processes in the list and one outside it, and the theorems at them.
use klos.Process.Lives.{
  Services, Kernel, pop_frame, pr_create_process, pr_resume, pr_fork_process, pr_terminate,
  new_process,
}
use klos.Process.Termination.{given_back, pr_terminate-pr_fork_process}
use klos.Process.Creation.{unlinked}
use klos.Process.Copy.{pr_fork_process-copied}
use klos.Process.Frame.{user_start, pr_resume-pr_create_process}
use klos.Base.{
  ℕ, ◌+◌, ◌*◌, ◌≡◌, ◌≢◌, refl, inl, inr, Option, none, true, some, List, [], ◌∷◌, arith, ◌==◌,
  if◌then◌else◌, count, sub32, update,
}
use klos.Process.{
  Process, Processes, pr_inject_process, pr_free_pid, set_next, pr_schedule, resumed,
}
use klos.Process.Chain.{IsList, SameButLinks, IsSorted}
use klos.Process.Inject.{insert_by_pid, pids, pr_inject_process-IsList}
use klos.Process.Order.{pr_inject_process-IsSorted}
use klos.Process.Schedule.{states, first_running, pr_schedule-first_running}

abbrev process : (pid state next : ℕ) → Process
process pid state next = record {
  pid = pid;
  state = state;
  kernel_stack = 0;
  stack_pointer = 0;
  page_table = 0;
  pages = 0;
  syscall_mode = 0;
  next_process = next;
}

-- Processes 0, 2 and 1 at the addresses 100, 200 and 300; the last is not linked in.
abbrev two : ℕ → ℕ → Processes
two current state = record {
  at = update (update (λ _. process 1 0 0) 200 (process 2 state 0)) 100 (process 0 0 200);
  root = 100;
  current = current;
  next_pid = 3;
}

two-IsList : (current state : ℕ) → IsList (two current state) (100 ∷ 200 ∷ [])
unfolding update
two-IsList current state = record {
  chain = (refl, (λ e. absurd (omega arith)), (refl, (λ e. absurd (omega arith)), refl));
  distinct = (refl, (refl, tt));
}

pr_inject_process-IsList_example :
    (u : Processes) × (pr_inject_process 2 300 (two 0 0) ≡ some (true, u))
    × IsList u (insert_by_pid (pids (two 0 0)) 300 (100 ∷ 200 ∷ []))
    × SameButLinks (two 0 0) u
pr_inject_process-IsList_example =
    pr_inject_process-IsList 2 300 (λ e. absurd (omega arith)) refl (two-IsList 0 0) (omega arith)

between : insert_by_pid (pids (two 0 0)) 300 (100 ∷ 200 ∷ []) ≡ 100 ∷ 300 ∷ 200 ∷ []
unfolding insert_by_pid update
between = refl

pr_inject_process-IsSorted_example :
    (u : Processes) × (ys : List ℕ) × (pr_inject_process 2 300 (two 0 0) ≡ some (true, u))
    × IsList u ys
    × IsSorted (pids u) ys
    × ((a : ℕ) → count a ys ≡ (if a == 300 then 1 else 0) + count a (100 ∷ 200 ∷ []))
unfolding update
pr_inject_process-IsSorted_example =
    pr_inject_process-IsSorted 2 300 (two 0 0) (100 ∷ 200 ∷ []) (λ e. absurd (omega arith)) refl
      (two-IsList 0 0) (omega arith) (omega arith)

pr_schedule-first_running_example :
    pr_schedule 4 (two 200 1) ≡ some (first_running (states (two 200 1)) (100 ∷ []))
pr_schedule-first_running_example =
    pr_schedule-first_running 4 (two 200 1) (100 ∷ []) [] (two-IsList 200 1) (omega arith)

second_runs : pr_schedule 4 (two 100 1) ≡ some (resumed 200)
unfolding pr_schedule update
second_runs = refl

-- The first of two processes is copied; structures and stacks are given from 0xD0000000 on.
abbrev services : Services ℕ
services = record {
  kalloc = λ n s. (s, s + 0x10000);
  kfree = λ p s. s;
  pg_create_user_page_directory = λ s. (7, s);
  pg_copy_user_page_directory = λ t s. (8, s);
  pg_free_user_page_directory = λ t s. s;
  pg_activate_table = λ t s. s;
}

abbrev kernel : Kernel ℕ
kernel = record {
  processes = two 100 0;
  word = λ p. p;
  esp0 = 0;
  ss0 = 0x10;
  esp = 0;
  rest = 0xD0000000;
}

pr_terminate-pr_fork_process_example :
    (n : Kernel ℕ) × (m : Kernel ℕ) × (pr_fork_process services 4 100 kernel ≡ some (0xD0000000, n))
    × (pr_terminate services 4 0xD0000000 n ≡ some m)
    × IsList m.processes (100 ∷ 200 ∷ [])
    × ((a : ℕ) → a ≢ 0xD0000000 → unlinked (m.processes.at a) ≡ unlinked ((two 100 0).at a))
    × (m.processes.current ≡ 100)
    × (m.rest ≡ given_back services 4 kernel 0xD0000000 m.processes n.rest)
pr_terminate-pr_fork_process_example =
    pr_terminate-pr_fork_process services 4 kernel 100 (100 ∷ 200 ∷ []) (two-IsList 100 0)
      (λ e. absurd (omega arith)) refl (λ e. absurd (omega arith)) (omega arith)

-- No process runs yet; the new structure is at 0xD0000000 and its stack at 0xD0010000.
pr_resume-pr_create_process_example :
    let k = record kernel { processes = two 0 0 } in
    (n : Kernel ℕ) × (r : Kernel ℕ) × (pr_create_process services 4 k ≡ some (0xD0000000, n))
    × (pr_resume services 0xD0000000 n ≡ r)
    × (r.processes.current ≡ 0xD0000000)
    × (pop_frame r.esp r.word ≡ user_start)
    × (r.word 0x1234 ≡ 0x1234)
pr_resume-pr_create_process_example =
    pr_resume-pr_create_process services 4 (record kernel { processes = two 0 0 }) (100 ∷ 200 ∷ [])
      0x1234 (two-IsList 0 0) (λ e. absurd (omega arith)) refl (omega arith) refl (omega arith)
      (inr (omega arith))

abbrev kernel_of : Option (ℕ × Kernel ℕ) → Kernel ℕ
kernel_of none = kernel
kernel_of (some (p, k)) = k

abbrev forked : Kernel ℕ
forked = kernel_of (pr_fork_process services 3 100 kernel)

forked_run : pr_fork_process services 3 100 kernel ≡ some (0xD0000000, forked)
unfolding pr_fork_process new_process pr_inject_process pr_free_pid update
forked_run = refl

new_stack : (forked.processes.at 0xD0000000).kernel_stack ≡ 0xD0010000
unfolding pr_fork_process new_process pr_inject_process pr_free_pid set_next update
new_stack = refl

pr_fork_process-copied_example :
    (forked.word ((forked.processes.at 0xD0000000).kernel_stack + 4 * 1000) ≡ 0 + 4 * 1000)
    × (forked.word 0x1234 ≡ 0x1234)
    × (sub32
          (forked.processes.at 0xD0000000).stack_pointer
          (forked.processes.at 0xD0000000).kernel_stack
        ≡ 0)
unfolding update
pr_fork_process-copied_example =
    pr_fork_process-copied services 3 kernel 100 (100 ∷ 200 ∷ []) 0xD0000000 forked 1000 0x1234
      (two-IsList 100 0) (λ e. absurd (omega arith)) refl (λ e. absurd (omega arith)) (omega arith)
      forked_run
      (rw new_stack
        (record { dest_fits = omega arith; src_fits = omega arith; apart = inr (omega arith) }))
      (omega arith) (rw new_stack (inl (omega arith)))
