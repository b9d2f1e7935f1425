-- ===== src/Process/Creation.antt =====
-- The making of processes in src/kernel/process.cpp: the list, and the structure of the new process.
use klos.Base.{
  ℕ, ◌+◌, ◌≤◌, ◌≡◌, refl, ◌≢◌, ◌∙◌, ap, true, some, List, length, u32, sub32, update, update_self,
  update_ne, ◌∉◌, arith,
}
use klos.Process.{null, pr_state_paused, Process, Processes, pr_free_pid}
use klos.Process.Chain.{links, IsList, Chain-frame}
use klos.Process.Inject.{insert_by_pid, pids, pr_inject_process-IsList}
use klos.Process.Lives.{
  Services, Kernel, set_process, initial_stack, copy_stack, new_process, with_stack,
  pr_create_process, pr_fork_process,
}

-- A structure without its link.
abbrev pub unlinked : Process → Process
unlinked p = record p { next_process = 0 }

-- The list `xs` of `t` has got the process `p`, paused and with a new pid; the place in the list goes by the pid
-- that the structure had before. The other processes keep everything but their links.
pub record Joined (t u : Processes) (p : ℕ) (xs : List ℕ) : Type 0 where
  pub listed : IsList u (insert_by_pid (pids t) p xs)
  pub pid : (u.at p).pid ≡ t.next_pid
  pub paused : (u.at p).state ≡ pr_state_paused
  pub others : (a : ℕ) → a ≢ p → unlinked (u.at a) ≡ unlinked (t.at a)
  pub current : u.current ≡ t.current
  pub next_pid : u.next_pid ≡ u32 (t.next_pid + 1)

pub set_process-IsList :
    (p : ℕ) (q : Process) (t : Processes) (xs : List ℕ)
    → q.next_process ≡ links t p
    → IsList t xs
    → IsList (set_process p q t) xs
unfolding update
set_process-IsList p q t xs e l = record {
  chain =
      Chain-frame (links t) (links (set_process p q t)) t.root xs (λ a i. ground (arith, e))
        l.chain;
  distinct = l.distinct;
}

-- Changes of the new structure that keep its link, its pid and its state.
Joined-set :
    (t u : Processes) (p : ℕ) (xs : List ℕ) (q : Process)
    → q.next_process ≡ links u p
    → q.pid ≡ (u.at p).pid
    → q.state ≡ (u.at p).state
    → Joined t u p xs
    → Joined t (set_process p q u) p xs
Joined-set t u p xs q e f g j = record {
  listed = set_process-IsList p q u _ e j.listed;
  pid = ap (λ x. x.pid) (update_self u.at p q) ∙ f ∙ j.pid;
  paused = ap (λ x. x.state) (update_self u.at p q) ∙ g ∙ j.paused;
  others = λ a ne. ap unlinked (update_ne u.at p a q ne) ∙ j.others a ne;
  current = j.current;
  next_pid = j.next_pid;
}

module _ {S : Type 0} (services : Services S) (fuel : ℕ) (k : Kernel S) where
  open services use {kalloc, pg_create_user_page_directory, pg_copy_user_page_directory}

  -- The address of the new structure.
  abbrev pub place : ℕ
  place = (kalloc 32 k.rest).0

  new_process-Joined :
      (xs : List ℕ)
      → IsList k.processes xs
      → place ≢ null
      → place ∉ xs
      → length xs ≤ fuel
      → (u : Processes) × (new_process services fuel k
          ≡ some (true, place, record k { processes = u; rest = (kalloc 32 k.rest).1 }))
        × Joined k.processes u place xs
  unfolding new_process pr_free_pid
  new_process-Joined xs l ne out enough =
      let t = k.processes in
      let p = place in
      let (v, run, listed, same) = pr_inject_process-IsList fuel p ne out l enough in
      let counted = record v { next_pid = u32 (v.next_pid + 1) } in
      let named = record (v.at p) { pid = v.next_pid; state = pr_state_paused } in
      (
        set_process p named counted,
        rw run refl,
        record {
          listed =
              set_process-IsList p named counted (insert_by_pid (pids t) p xs) refl
                (record { chain = listed.chain; distinct = listed.distinct });
          pid = ap (λ x. x.pid) (update_self v.at p named) ∙ same.next_pid;
          paused = ap (λ x. x.state) (update_self v.at p named);
          others = λ a ne. ap unlinked (update_ne v.at p a named ne) ∙ same.fields a;
          current = same.current;
          next_pid = ap (λ n. u32 (n + 1)) same.next_pid;
        },
      )

  -- On a list of processes, with an unused address for the new structure and fuel for the length of the
  -- list, `pr_create_process` returns that address. The list has got the new process, paused and with the next pid, and
  -- no other process has changed but for links; the new one has the table that was made for it and, as its stack pointer, that of a new stack, whose words are written.
  pub pr_create_process-Joined :
      (xs : List ℕ)
      → IsList k.processes xs
      → place ≢ null
      → place ∉ xs
      → length xs ≤ fuel
      → (u : Processes) × (word : ℕ → ℕ) × (pr_create_process services fuel k
          ≡ some (
            place,
            record k {
              processes = u;
              word = word;
              rest = (kalloc 4096 (pg_create_user_page_directory (kalloc 32 k.rest).1).1).1;
            },
          ))
        × Joined k.processes u place xs
        × ((u.at place).page_table ≡ (pg_create_user_page_directory (kalloc 32 k.rest).1).0)
        × ((u.at place).stack_pointer
            ≡ (initial_stack
                (kalloc 4096 (pg_create_user_page_directory (kalloc 32 k.rest).1).1).0
                k.word).0)
        × (word
            ≡ (initial_stack
                (kalloc 4096 (pg_create_user_page_directory (kalloc 32 k.rest).1).1).0
                k.word).1)
  unfolding pr_create_process
  pr_create_process-Joined xs l ne out enough =
      let (u, run, j) = new_process-Joined xs l ne out enough in
      let (table, r) = pg_create_user_page_directory (kalloc 32 k.rest).1 in
      let (base, s) = kalloc 4096 r in
      let (pointer, word) = initial_stack base k.word in
      let q = record (u.at place) {
        page_table = table;
        kernel_stack = base;
        stack_pointer = pointer;
      } in
      (
        set_process place q u,
        word,
        rw run refl,
        Joined-set k.processes u place xs q refl refl refl j,
        ap (λ x. x.page_table) (update_self u.at place q),
        ap (λ x. x.stack_pointer) (update_self u.at place q),
        refl,
      )

  -- The same for `pr_fork_process` of another process `src`: the new one has the table that was copied for it, and its
  -- stack pointer lies in its stack where that of `src` lies in its own; the words are those of the copied stack.
  pub pr_fork_process-Joined :
      (src : ℕ) (xs : List ℕ)
      → IsList k.processes xs
      → place ≢ null
      → place ∉ xs
      → src ≢ place
      → length xs ≤ fuel
      → (u : Processes) × (base : ℕ) × (rest : S) × (pr_fork_process services fuel src k
          ≡ some (
            place,
            record k {
              processes = u;
              word = copy_stack base (k.processes.at src).kernel_stack k.word;
              rest = rest;
            },
          ))
        × Joined k.processes u place xs
        × ((u.at place).kernel_stack ≡ base)
        × ((u.at place).stack_pointer
            ≡ u32
                (base + sub32 (k.processes.at src).stack_pointer (k.processes.at src).kernel_stack))
  unfolding pr_fork_process
  pr_fork_process-Joined src xs l ne out other enough =
      let (u, run, j) = new_process-Joined xs l ne out enough in
      let parent = u.at src in
      let same = j.others src other in
      let stack : parent.kernel_stack ≡ (k.processes.at src).kernel_stack =
        ap (λ x. x.kernel_stack) same in
      let pointer_of : parent.stack_pointer ≡ (k.processes.at src).stack_pointer =
        ap (λ x. x.stack_pointer) same in
      let (table, r) = pg_copy_user_page_directory parent.page_table (kalloc 32 k.rest).1 in
      let (base, s) = kalloc 4096 r in
      let pointer = u32 (base + sub32 parent.stack_pointer parent.kernel_stack) in
      let q = record (u.at place) {
        page_table = table;
        kernel_stack = base;
        stack_pointer = pointer;
      } in
      (
        set_process place q u,
        base,
        s,
        rw run (
            ap
              (λ b. some (
                place,
                with_stack services place table base pointer
                    (record k { processes = u; word = copy_stack base b k.word; rest = s }),
              ))
              stack),
        Joined-set k.processes u place xs q refl refl refl j,
        ap (λ x. x.kernel_stack) (update_self u.at place q),
        ap (λ x. x.stack_pointer) (update_self u.at place q) ∙ rw (pointer_of, stack) refl,
      )
