-- ===== src/Debug.antt =====
-- The reports of src/kernel/debug.cpp. The words of memory are known by their addresses; the debug
-- registers are read in assembly and are a parameter.
pub mod Trace
pub mod Memory
mod Examples
use klos.Base.{
  ℕ, zero, suc, ◌+◌, Option, none, some, List, [], ◌∷◌, ◌==◌, if◌then◌else◌, u32, bit_and, ◌>>=◌,
}
use klos.Base.Text.{codes}
use klos.Console.{Console, Argument, number, string, kc_print_string, kc_print_hex, kc_printf}
use klos.Memory.{FrameStacks, mm_get_pages_free}
use klos.Symbol.{Symbols, sm_resolve}

-- Calls of `kc_print_string` and `kc_print_hex` in turn. `rounds` is the fuel for tabs.
unfoldable pub print_all : (rounds : ℕ) → List Argument → Console → Option Console
print_all rounds [] c = some c
print_all rounds (number v ∷ rest) c = kc_print_hex v c >>= λ n. print_all rounds rest n
print_all rounds (string v ∷ rest) c = kc_print_string rounds v c >>= λ n. print_all rounds rest n

unfoldable pub db_dump_dregs : (rounds : ℕ) → (dr : ℕ → ℕ) → Console → Option Console
db_dump_dregs rounds dr c =
    kc_printf rounds (codes "DR0: %x\t DR1: %x \t DR2: %x\t DR3: %x\n")
      (number (dr 0) ∷ number (dr 1) ∷ number (dr 2) ∷ number (dr 3) ∷ []) c
    >>= λ n. kc_printf rounds (codes "DR6: %x\t DR7: %x\n") (number (dr 6) ∷ number (dr 7) ∷ []) n

-- The memory report, with what `kh_get_memory_info` gives.
unfoldable pub db_mm_info : (rounds allocated total : ℕ) → FrameStacks → Console → Option Console
db_mm_info rounds allocated total stacks c =
    let (lo, hi) = mm_get_pages_free stacks in
    kc_printf rounds (codes "MEM: %d pages available; ")
      (number (u32 (lo + hi)) ∷ number lo ∷ number hi ∷ []) c
    >>= λ n.
        kc_printf rounds (codes "HEAP: %d of %d bytes used\n")
          (number allocated ∷ number total ∷ []) n

module _ (sm_table : Symbols (List ℕ)) (rounds entries : ℕ) (word : ℕ → ℕ) where
  -- The line for a stack frame. `entries` is the fuel for the table of symbols.
  unfoldable pub trace_line : (frame : ℕ) → Console → Option Console
  unfolding sm_resolve print_all
  trace_line frame c = do
    let back = word (u32 (frame + 4))
    name ← sm_resolve sm_table entries back
    print_all rounds (number back ∷ string (codes " (") ∷ string name ∷ string (codes ")\n") ∷ []) c

  -- `while(1)`; `none` also means that the fuel ran out.
  unfoldable pub trace_loop : (fuel frame : ℕ) → Console → Option Console
  unfolding trace_line
  trace_loop zero frame c = none
  trace_loop (suc fuel) frame c =
      let next = word frame in
      trace_line frame c >>= λ n.
      let rest = trace_loop fuel next n in
      if bit_and frame 0xFFFFF000 == bit_and next 0xFFFFF000 then rest else some n

  unfoldable pub db_stack_trace : (fuel ebp : ℕ) → Console → Option Console
  unfolding trace_loop
  db_stack_trace fuel ebp c =
      if ebp == 0
      then kc_print_string rounds (codes "Stack trace not possible ebp == 0\n") c
      else (kc_print_string rounds (codes "Stack trace:\n") c >>= trace_loop fuel ebp)
