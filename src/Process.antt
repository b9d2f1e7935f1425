-- ===== src/Process.antt =====
-- The process list and the scheduler of src/kernel/process.cpp. Process structures lie at addresses,
-- 0 is NULL, and the list is linked through `next_process`.
pub mod Chain
pub mod Inject
pub mod Order
pub mod Extract
pub mod Schedule
pub mod Lives
pub mod Frame
pub mod Creation
pub mod Termination
pub mod Copy
pub mod Setup
mod Examples
use klos.Base.{
  ℕ, zero, suc, ◌+◌, Bool, true, false, ◌||◌, Option, none, some, ltb, ◌==◌, if◌then◌else◌, u32,
  update,
}

abbrev pub null : ℕ
null = 0

abbrev pub pr_state_paused : ℕ
pr_state_paused = 0

abbrev pub pr_state_running : ℕ
pr_state_running = 1

pub record Process : Type 0 where
  pub pid : ℕ
  pub state : ℕ
  pub kernel_stack : ℕ
  pub stack_pointer : ℕ
  pub page_table : ℕ
  pub pages : ℕ
  pub syscall_mode : ℕ
  pub next_process : ℕ

-- The structures by their addresses, and the globals `pr_root`, `pr_current` and `pr_next_pid`.
pub record Processes : Type 0 where
  pub at : ℕ → Process
  pub root : ℕ
  pub current : ℕ
  pub next_pid : ℕ

-- `p->next_process = q`
unfoldable pub set_next : ℕ → ℕ → Processes → Processes
set_next p q t = record t { at = update t.at p (record (t.at p) { next_process = q }) }

-- Returns a pid that has not been given out since the counter last wrapped, with the next state.
unfoldable pub pr_free_pid : Processes → ℕ × Processes
pr_free_pid t = (t.next_pid, record t { next_pid = u32 (t.next_pid + 1) })

-- The loop of `pr_inject_process`; `none` means that the fuel ran out.
unfoldable pub inject_loop : ℕ → ℕ → ℕ → Processes → Option (Bool × Processes)
unfolding set_next
inject_loop zero base proc t = none
inject_loop (suc fuel) base proc t =
    let next = (t.at base).next_process in
    let rest = inject_loop fuel next proc t in
    if base == null
    then some (false, t)
    else if (next == null) || ltb (t.at proc).pid (t.at next).pid
    then some (true, set_next base proc (set_next proc next t))
    else rest

unfoldable pub pr_inject_process : ℕ → ℕ → Processes → Option (Bool × Processes)
unfolding inject_loop
pr_inject_process fuel proc t =
    if (t.root == null) || ltb (t.at proc).pid (t.at t.root).pid
    then some (true, record (set_next proc t.root t) { root = proc })
    else inject_loop fuel t.root proc t

-- The loop of `pr_extract_process`.
unfoldable pub extract_loop : ℕ → ℕ → ℕ → Processes → Option Processes
unfolding set_next
extract_loop zero base proc t = none
extract_loop (suc fuel) base proc t =
    let next = (t.at base).next_process in
    let rest = extract_loop fuel next proc t in
    if base == null
    then some t
    else if next == proc
    then some (set_next base (t.at proc).next_process t)
    else rest

unfoldable pub pr_extract_process : ℕ → ℕ → Processes → Option Processes
unfolding extract_loop
pr_extract_process fuel proc t =
    if proc == null
    then some t
    else if proc == t.root
    then some (record t { root = (t.at proc).next_process })
    else extract_loop fuel t.root proc t

-- How a call of `pr_schedule` ends: it returns, it passes control to a process and never returns, or
-- it stops the processor. `none` means that the fuel ran out.
pub data Outcome : Type 0 where
  returned halted : Outcome
  resumed : ℕ → Outcome

-- `if(proc == NULL) proc = pr_root;`
abbrev pub or_root : ℕ → Processes → ℕ
or_root proc t = if proc == null then t.root else proc

unfoldable pub schedule_loop : ℕ → ℕ → Processes → Option Outcome
schedule_loop zero proc t = none
schedule_loop (suc fuel) proc t =
    let rest = schedule_loop fuel (or_root (t.at proc).next_process t) t in
    if proc == t.current
    then some halted
    else if (t.at proc).state == pr_state_running
    then some (resumed proc)
    else rest

unfoldable pub pr_schedule : ℕ → Processes → Option Outcome
unfolding schedule_loop
pr_schedule fuel t =
    if t.root == null
    then some returned
    else schedule_loop fuel
        (or_root (if t.current == null then null else (t.at t.current).next_process) t) t
