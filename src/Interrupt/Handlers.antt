-- ===== src/Interrupt/Handlers.antt =====
-- The handlers of src/kernel/interrupt.cpp: the timer, the keyboard and the system calls. What assembly
-- does around them is left out; the bytes of memory are known by their addresses.
use klos.Base.{
  ℕ, zero, suc, ◌+◌, ◌*◌, Option, none, some, List, ◌∷◌, ◌==◌, if◌then◌else◌, u32, sub32, update,
  upto, ◌>>=◌,
}
use klos.Base.Text.{codes}
use klos.Console.{Console, kc_write_character, kc_print_string}
use klos.Debug.{db_mm_info, db_stack_trace}
use klos.Memory.{FrameStacks}
use klos.Process.{null, pr_state_running, Processes, Outcome, pr_schedule}
use klos.Process.Lives.{
  Services, Kernel, set_process, pr_get_current, pr_resume, pr_fork_process, pr_terminate,
}
use klos.Symbol.{Symbols}

-- How a handler ends: it returns, it passes control to a process, or it stops the processor.
pub data Ending : Type 0 where
  returned stopped : Ending
  switched : ℕ → Ending

-- The console, the processes, the writes `(value, port)`, the last one first, and `time` of the timer.
pub record Calls (S : Type 0) : Type 0 where
  pub console : Console
  pub kernel : Kernel S
  pub ports : List (ℕ × ℕ)
  pub time : ℕ

unfoldable pub ending_of : Outcome → Ending
ending_of Outcome.returned = returned
ending_of Outcome.halted = stopped
ending_of (Outcome.resumed p) = switched p

-- The characters from i on, `count` of them; `byte` is the memory.
unfoldable pub write_loop :
    (rounds : ℕ) → (byte : ℕ → ℕ) → (count string i : ℕ) → Console → Option Console
write_loop rounds byte zero string i c = some c
write_loop rounds byte (suc count) string i c =
    kc_write_character rounds (byte (u32 (string + i))) c >>= λ n.
    write_loop rounds byte count string (suc i) n

-- `stack[-6]` for the stack of a process, which holds eax.
unfoldable pub return_code : ℕ → Processes → ℕ
return_code proc t = sub32 (u32 ((t.at proc).kernel_stack + 4096)) 24

module _ {S : Type 0} (services : Services S) (sm_table : Symbols (List ℕ))
    (rounds entries fuel : ℕ) where
  unfoldable pub is_cstub : Calls S → Option (Ending × Calls S)
  is_cstub s = kc_print_string rounds (codes "\nStub interrupt handler!\n") s.console >>= λ c.
      some (returned, record s { console = c })

  unfoldable pub is_c8259 : Calls S → Option (Ending × Calls S)
  is_c8259 s = kc_print_string rounds (codes "\n8259 Interrupt!\n") s.console >>= λ c.
      some (returned, record s { console = c; ports = (0x20, 0xA0) ∷ (0x20, 0x20) ∷ s.ports })

  -- `content` are the words from the stack pointer on.
  unfoldable pub is_cpanic : (content word : ℕ → ℕ) → Calls S → Option (Ending × Calls S)
  is_cpanic content word s = do
    c₁ ← kc_print_string rounds (codes "\nKernel panic!\n") s.console
    c₂ ← kc_print_string rounds (codes "Don't know how to handle interrupt\n") c₁
    c₃ ← db_stack_trace sm_table rounds entries word fuel (content 10) c₂
    some (stopped, record s { console = c₃ })

  unfoldable pub is_cpic : (content word : ℕ → ℕ) → Calls S → Option (Ending × Calls S)
  is_cpic content word s =
      kc_print_string rounds (codes "\nReceived interrupt from 8259...\n") s.console >>= λ c.
      is_cpanic content word (record s { console = c })

  -- `sched_hook` is 0 or a routine, which is run last.
  unfoldable pub is_ctimer :
      (sched_hook : ℕ)
      → (routine : ℕ → Calls S → Option (Ending × Calls S)) → Calls S
      → Option (Ending × Calls S)
  is_ctimer sched_hook routine s =
      let acknowledged = record s { time = u32 (s.time + 10); ports = (0x20, 0x20) ∷ s.ports } in
      if sched_hook == 0 then some (returned, acknowledged) else routine sched_hook acknowledged

  -- What the keyboard's ports give is not used.
  unfoldable pub is_ckeyboard : Calls S → Ending × Calls S
  is_ckeyboard s = (returned, record s { ports = (0x20, 0x20) ∷ s.ports })

  -- The call that ends a process. `report` gives what `kh_get_memory_info` and the stacks of free
  -- pages say.
  unfoldable pub exit_call :
      (report : S → (ℕ × ℕ) × FrameStacks) → Calls S → Option (Ending × Calls S)
  exit_call report s = do
    k ← pr_terminate services fuel (pr_get_current s.kernel.processes) s.kernel
    c₁ ← kc_print_string rounds (codes "Process terminated!\n") s.console
    let (sizes, stacks) = report k.rest
    c₂ ← db_mm_info rounds sizes.0 sizes.1 stacks c₁
    o ← pr_schedule fuel k.processes
    some (ending_of o, record s { console = c₂; kernel = k })

  -- The call that forks, after `pr_fork_process` has given a process: the codes that the two get, and
  -- the selectors of the new one.
  unfoldable pub fork_codes : (forked : ℕ) → Kernel S → Kernel S
  unfolding return_code
  fork_codes forked k =
      let t = k.processes in
      let parent = update k.word (return_code (pr_get_current t) t) (t.at forked).pid in
      let child = update parent (return_code forked t) 0 in
      let stack = u32 ((t.at forked).kernel_stack + 4096) in
      record k {
        processes = set_process forked (record (t.at forked) { state = pr_state_running }) t;
        word = upto 4 (λ i w. update w (sub32 (u32 (stack + 4 * i)) 68) 0x20) child;
      }

  -- `none` also stands for the use of NULL where there is no new process.
  unfoldable pub fork_call : Calls S → Option (Ending × Calls S)
  fork_call s = do
    (forked, k) ← pr_fork_process services fuel (pr_get_current s.kernel.processes) s.kernel
    c ← kc_print_string rounds (codes "Process forked!\n") s.console
    let resumed = pr_resume services forked (fork_codes forked k)
    if forked == null
        then none
        else some (switched forked, record s { console = c; kernel = resumed })

  -- `is_capi(a, b, c, d)`. The assembly of the calls 0x05 and 0x14 moves eax to the local variable
  -- `tmp`, which is then dropped.
  unfoldable pub is_capi :
      (report : S → (ℕ × ℕ) × FrameStacks)
      → (byte content word : ℕ → ℕ) → (a b c d : ℕ) → Calls S
      → Option (Ending × Calls S)
  is_capi report byte content word a b c d s =
      if a == 0x01
      then exit_call report s
      else if a == 0x02
      then fork_call s
      else if a == 0x03
      then some (returned, s)
      else if a == 0x04
      then (write_loop rounds byte d c 0 s.console >>= λ n.
          some (returned, record s { console = n }))
      else if a == 0x05
      then some (returned, s)
      else if a == 0x14
      then some (returned, s)
      else (kc_print_string rounds (codes "Invalid syscall!\n") s.console >>= λ n.
          is_cpanic content word (record s { console = n }))
