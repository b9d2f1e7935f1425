-- ===== src/Interrupt/Fork.antt =====
-- What the fork system call of src/kernel/interrupt.cpp gives to the two processes.
mod Examples
use klos.Base.{
  ℕ, zero, suc, ◌+◌, ◌-◌, ◌*◌, ◌%◌, ◌^◌, ◌<◌, ◌≤◌, ◌≡◌, ◌≢◌, refl, sym, ap, ◌∙◌, ◌⊎◌, inl, inr,
  Option, some, List, [], ◌∷◌, ◌==◌, ==_false, if◌then◌else◌, u32, sub32, update, update_self,
  update_ne, upto, Bool-cases, arith,
}
use klos.Base.Text.{codes}
use klos.Console.{Console, kc_print_string}
use klos.Console.Write.{OnScreen}
use klos.Console.Total.{kc_print_string-Prints}
use klos.Process.{null, pr_state_running, Process, Processes}
use klos.Process.Lives.{Services, Kernel, set_process, pr_get_current, pr_resume, pr_fork_process}
use klos.Symbol.{Symbols}
use klos.Interrupt.Handlers.{Ending, switched, Calls, return_code, fork_codes, fork_call}

-- The four words below the top of a stack where the selectors are saved.
abbrev selectors : (stack : ℕ) → (ℕ → ℕ) → ℕ → ℕ
selectors stack word = upto 4 (λ i w. update w (sub32 (u32 (stack + 4 * i)) 68) 0x20) word

selectors-elsewhere :
    (stack q : ℕ) (word : ℕ → ℕ)
    → 68 ≤ stack
    → stack + 16 < 2 ^ 32
    → (q + 68 < stack) ⊎ (stack < q + 53)
    → selectors stack word q ≡ word q
unfolding upto update
selectors-elsewhere stack q word low high apart = ground (arith)

-- The stacks of two processes are pages below 4 GB that do not overlap.
pub record AreApart (a b : ℕ) : Type 0 where
  pub a_fits : a + 8192 ≤ 2 ^ 32
  pub b_fits : b + 8192 ≤ 2 ^ 32
  pub apart : (a + 4096 ≤ b) ⊎ (b + 4096 ≤ a)

module _ (parent child : ℕ) (word : ℕ → ℕ) (v : ℕ) (a : AreApart parent child) where
  -- The two return codes, then the selectors of the child and of the parent.
  abbrev codes_written : ℕ → ℕ
  codes_written = selectors (u32 (parent + 4096)) (
      selectors (u32 (child + 4096))
        (update (update word (sub32 (u32 (parent + 4096)) 24) v) (sub32 (u32 (child + 4096)) 24) 0))

  parent_code : codes_written (sub32 (u32 (parent + 4096)) 24) ≡ v
  parent_code =
      let p = u32 (parent + 4096) in
      let c = u32 (child + 4096) in
      let q = sub32 p 24 in
      let first = update word q v in
      let second = update first (sub32 c 24) 0 in
      let far : (q + 68 < c) ⊎ (c < q + 53) = ground (arith, a.a_fits, a.b_fits, a.apart) in
      selectors-elsewhere p q (selectors c second) (omega (arith, a.a_fits))
        (omega (arith, a.a_fits)) (inr (omega (arith, a.a_fits)))
      ∙ selectors-elsewhere c q second (omega (arith, a.b_fits)) (omega (arith, a.b_fits)) far
      ∙ update_ne first (sub32 c 24) q 0 (λ e. ground (arith, a.a_fits, a.b_fits, a.apart))
      ∙ update_self word q v

  child_code : codes_written (sub32 (u32 (child + 4096)) 24) ≡ 0
  child_code =
      let p = u32 (parent + 4096) in
      let c = u32 (child + 4096) in
      let q = sub32 c 24 in
      let first = update word (sub32 p 24) v in
      let second = update first q 0 in
      let far : (q + 68 < p) ⊎ (p < q + 53) = ground (arith, a.a_fits, a.b_fits, a.apart) in
      selectors-elsewhere p q (selectors c second) (omega (arith, a.a_fits))
        (omega (arith, a.a_fits)) far
      ∙ selectors-elsewhere c q second (omega (arith, a.b_fits)) (omega (arith, a.b_fits))
          (inr (omega (arith, a.b_fits)))
      ∙ update_self first q 0

module _ {S : Type 0} (services : Services S) (sm_table : Symbols (List ℕ))
    (rounds entries fuel : ℕ) where
  -- When `pr_fork_process` gives a process other than the current one, whose stack does not overlap
  -- the stack of the current one, and the console has eight rounds for a tab and its cursor on the
  -- screen, the fork call passes control to the new process, which is running and current; on the
  -- stack of the caller the code that is returned is the new pid, on the stack of the new process
  -- it is 0.
  pub fork_call-codes :
      (s : Calls S) (forked : ℕ) (k : Kernel S)
      → pr_fork_process services fuel (pr_get_current s.kernel.processes) s.kernel
        ≡ some (forked, k)
      → forked ≢ null
      → k.processes.current ≢ null
      → k.processes.current ≢ forked
      → AreApart
          (k.processes.at k.processes.current).kernel_stack
          (k.processes.at forked).kernel_stack
      → 8 ≤ rounds
      → OnScreen s.console
      → (s' : Calls S) × (fork_call services sm_table rounds entries fuel s
          ≡ some (switched forked, s'))
        × (s'.kernel.word (return_code k.processes.current k.processes)
            ≡ (k.processes.at forked).pid)
        × (s'.kernel.word (return_code forked k.processes) ≡ 0)
        × (s'.kernel.processes.current ≡ forked)
        × ((s'.kernel.processes.at forked).state ≡ pr_state_running)
  unfolding fork_call fork_codes pr_resume return_code pr_get_current upto
  fork_call-codes s forked k run ne cur other a h on =
      let t = k.processes in
      let from = (t.at t.current).kernel_stack in
      let to = (t.at forked).kernel_stack in
      let pid = (t.at forked).pid in
      let run_child : Process = record (t.at forked) { state = pr_state_running } in
      let written =
        selectors (u32 (to + 4096))
          (update (update k.word (return_code t.current t) pid) (return_code forked t) 0) in
      let same = update_ne t.at forked t.current run_child other in
      let (c, printed, there) =
        kc_print_string-Prints rounds (codes "Process forked!\n") s.console h on in
      (
        record s {
          console = c;
          kernel =
              pr_resume services forked (fork_codes services sm_table rounds entries fuel forked k);
        },
        rw (run, printed, ==_false forked null ne) refl,
        rw (==_false t.current null cur) (
            ap (λ p. selectors (u32 (p.kernel_stack + 4096)) written (return_code t.current t)) same
            ∙ parent_code from to k.word pid a),
        rw (==_false t.current null cur) (
            ap (λ p. selectors (u32 (p.kernel_stack + 4096)) written (return_code forked t)) same
            ∙ child_code from to k.word pid a),
        refl,
        ap (λ p. p.state) (update_self t.at forked run_child),
      )
