-- ===== src/Exceptions.antt =====
-- The handler of processor exceptions in src/kernel/exceptions.cpp, over the console, the processes and
-- the page tables. What assembly reads (the saved registers, cr2, the debug registers) is a
-- parameter.
pub mod Faults
mod Examples
use klos.Base.{
  ℕ, zero, suc, ◌+◌, Bool, true, false, Option, none, some, List, [], ◌∷◌, ◌==◌, if◌then◌else◌,
  ◌>>=◌,
}
use klos.Base.Text.{codes}
use klos.Console.{Console, Argument, number, string, kc_print_string}
use klos.Debug.{print_all, db_dump_dregs, db_stack_trace}
use klos.Process.{Process, Processes, Outcome, pr_schedule}
use klos.Process.Lives.{pr_getpid, pr_get_current, pr_suspend}
use klos.Paging.{PageHeap}
use klos.Paging.Fault.{Spaces, pg_resolve_fault}
use klos.Symbol.{Symbols}

pub record System : Type 0 where
  pub console : Console
  pub spaces : Spaces

-- How the handler ends: it returns to the code that was interrupted, it passes control to a process, or
-- it stops the processor.
pub data Ending : Type 0 where
  resolved stopped : Ending
  switched : ℕ → Ending

-- What the processor has saved: `content`, cr2, the debug registers, and the words of memory.
pub record Saved : Type 0 where
  pub content : ℕ → ℕ
  pub cr2 : ℕ
  pub dr : ℕ → ℕ
  pub word : ℕ → ℕ

-- What the cases print that do nothing else.
unfoldable pub message : (exception_id : ℕ) → List Argument
message n =
    if n == 0
    then string (codes "Division by zero\n") ∷ []
    else if n == 2
    then string (codes "NMI Interrupt\n") ∷ []
    else if n == 3
    then string (codes "Breakpoint exception\n") ∷ []
    else if n == 4
    then string (codes "Overflow exception\n") ∷ []
    else if n == 5
    then string (codes "BOUND Range exceeded exception\n") ∷ []
    else if n == 6
    then string (codes "Invalid opcode\n") ∷ []
    else if n == 7
    then string (codes "Device not available\n") ∷ []
    else if n == 9
    then string (codes "Coprocessor segment overrun\n") ∷ []
    else if n == 10
    then string (codes "Invalid TSS exception\n") ∷ []
    else if n == 11
    then string (codes "Segment not present\n") ∷ []
    else if n == 12
    then string (codes "Stack fault\n") ∷ []
    else if n == 16
    then string (codes "x87 FPU floating-point error\n") ∷ []
    else if n == 17
    then string (codes "Alignment check exception\n") ∷ []
    else if n == 18
    then string (codes "Machine check exception\n") ∷ []
    else if n == 19
    then string (codes "SIMD floating point exception\n") ∷ []
    else string (codes "\n\nException: ") ∷ number n ∷ string (codes "\n") ∷ []

-- How the call of the scheduler ends the handler, where it does.
unfoldable pub ending_of : Outcome → Option Ending
ending_of Outcome.returned = none
ending_of Outcome.halted = some stopped
ending_of (Outcome.resumed p) = some (switched p)

-- `registers`: the lines that the handler prints at its end.
abbrev pub registers : (ℕ → ℕ) → List Argument
registers content =
    string (codes "\n")
    ∷ string (codes "EDI: ")
    ∷ number (content 10)
    ∷ string (codes "\t")
    ∷ string (codes "ESI: ")
    ∷ number (content 11)
    ∷ string (codes "\t")
    ∷ string (codes "EBP: ")
    ∷ number (content 12)
    ∷ string (codes "\t")
    ∷ string (codes "ESP: ")
    ∷ number (content 13)
    ∷ string (codes "\n")
    ∷ string (codes "EBX: ")
    ∷ number (content 14)
    ∷ string (codes "\t")
    ∷ string (codes "EDX: ")
    ∷ number (content 15)
    ∷ string (codes "\t")
    ∷ string (codes "ECX: ")
    ∷ number (content 16)
    ∷ string (codes "\t")
    ∷ string (codes "EAX: ")
    ∷ number (content 17)
    ∷ string (codes "\n")
    ∷ string (codes "\n")
    ∷ []

module _ (heap : PageHeap) (sm_table : Symbols (List ℕ)) (rounds entries fuel : ℕ) where
  -- `pr_suspend(pr_get_current()); pr_schedule();` on the processes t.
  unfoldable pub leave : Processes → Option (Option Ending × Processes)
  leave t = do
    (first, paused) ← pr_suspend fuel (pr_get_current t) t
    second ← pr_schedule fuel paused
    some (elim (ending_of first) [ none ↦ (ending_of second, paused) | some e ↦ (some e, paused) ])

  -- The current process, if there is one, is suspended; `none` in the result goes on with the handler.
  unfoldable pub suspend_current : System → Option (Option Ending × System)
  suspend_current s =
      let t = s.spaces.processes in
      let report =
        string (codes "Suspending process: ") ∷ number (pr_getpid t) ∷ string (codes "\n") ∷ [] in
      let suspended = print_all rounds report s.console >>= λ c. leave t >>= λ (e, u).
      some (e, record { console = c; spaces = record s.spaces { processes = u } }) in
      if pr_get_current t == 0 then some (none, s) else suspended

  -- The end of the handler: the registers and the stack trace, and the processor stops.
  unfoldable pub give_up : Saved → System → Option (Ending × System)
  give_up saved s = do
    c₁ ← print_all rounds (registers saved.content) s.console
    c₂ ← db_stack_trace sm_table rounds entries saved.word fuel (saved.content 12) c₁
    c₃ ← kc_print_string rounds (codes "Halting CPU!") c₂
    some (stopped, record s { console = c₃ })

  abbrev pub or_give_up : Saved → Option Ending × System → Option (Ending × System)
  or_give_up saved (none, s) = give_up saved s
  or_give_up saved (some e, s) = some (e, s)

  unfoldable pub page_fault : Saved → System → Option (Ending × System)
  page_fault saved s = pg_resolve_fault heap fuel saved.cr2 s.spaces >>= λ (done, t).
      let left = suspend_current (record s { spaces = t }) >>= or_give_up saved in
      if done then some (resolved, record s { spaces = t }) else left

  unfoldable pub is_cexception :
      (exception_id error_code : ℕ) → Saved → System → Option (Ending × System)
  is_cexception exception_id error_code saved s =
      let protection =
        string (codes "General protection fault (")
        ∷ number error_code
        ∷ string (codes ")\n")
        ∷ [] in
      if exception_id == 1
      then (kc_print_string rounds (codes "Debug exception\n") s.console
          >>= db_dump_dregs rounds saved.dr
          >>= λ c. give_up saved (record s { console = c }))
      else if exception_id == 8
      then some (stopped, s)
      else if exception_id == 13
      then (print_all rounds protection s.console >>= λ c.
          suspend_current (record s { console = c }) >>= or_give_up saved)
      else if exception_id == 14
      then page_fault saved s
      else (print_all rounds (message exception_id) s.console >>= λ c.
          give_up saved (record s { console = c }))
