-- ===== src/Debug/Trace.antt =====
-- What `db_stack_trace` of src/kernel/debug.cpp prints for a chain of stack frames.
use klos.Base.{
  ℕ, zero, suc, ◌+◌, ◌^◌, ◌<◌, ◌≤◌, ◌≡◌, ◌≢◌, refl, true, Option, some, List, [], ◌∷◌, length, ◌==◌,
  ==_false, u32, bit_and, ◌>>=◌, arith,
}
use klos.Base.Text.{codes}
use klos.Console.{Console, Argument, number, string, kc_print_string, kc_print_hex}
use klos.Console.Write.{OnScreen}
use klos.Console.Total.{Prints, Prints-bind, kc_print_string-Prints, kc_print_hex-Prints}
use klos.Symbol.{Symbols}
use klos.Symbol.Resolve.{EndsAt, sm_resolve-some}
use klos.Debug.{print_all, trace_line, trace_loop, db_stack_trace}

-- The page of an address.
abbrev pub page : ℕ → ℕ
page p = bit_and p 0xFFFFF000

-- The numbers among the arguments are 32-bit words.
abbrev pub AllWords : List Argument → Type 0
AllWords [] = Unit
AllWords (number v ∷ rest) = (v < 2 ^ 32) × AllWords rest
AllWords (string v ∷ rest) = AllWords rest

pub print_all-Prints :
    (rounds : ℕ) (args : List Argument) (c : Console)
    → 8 ≤ rounds
    → AllWords args
    → OnScreen c
    → Prints (print_all rounds args c)
unfolding print_all
print_all-Prints rounds [] c h w o = (c, refl, o)
print_all-Prints rounds (number v ∷ rest) c h w o =
    Prints-bind (kc_print_hex v c) (print_all rounds rest) (kc_print_hex-Prints v c w.0 o)
      (λ n on. print_all-Prints rounds rest n h w.1 on)
print_all-Prints rounds (string v ∷ rest) c h w o =
    Prints-bind (kc_print_string rounds v c) (print_all rounds rest)
      (kc_print_string-Prints rounds v c h o) (λ n on. print_all-Prints rounds rest n h w on)

-- The frames that the saved frame pointers lead through from p: all but the last one save a pointer
-- into their own page.
abbrev pub Frames : (ℕ → ℕ) → ℕ → List ℕ → Type 0
Frames word p [] = ⊥
Frames word p (f ∷ []) = (p ≡ f) × (page f ≢ page (word f))
Frames word p (f ∷ g ∷ fs) = (p ≡ f) × (page f ≡ page (word f)) × Frames word (word f) (g ∷ fs)

module _ (sm_table : Symbols (List ℕ)) (rounds entries n : ℕ) (word : ℕ → ℕ) where
  -- A line for each frame in turn.
  unfoldable pub lines : List ℕ → Console → Option Console
  lines [] c = some c
  lines (f ∷ fs) c = trace_line sm_table rounds entries word f c >>= lines fs

  module _ (h : 8 ≤ rounds) (e : EndsAt sm_table n) (enough : n < entries)
      (words : (p : ℕ) → word p < 2 ^ 32) where
    trace_line-Prints :
        (f : ℕ) (c : Console) → OnScreen c → Prints (trace_line sm_table rounds entries word f c)
    unfolding trace_line
    trace_line-Prints f c o =
        let back = word (u32 (f + 4)) in
        let (name, found) = sm_resolve-some sm_table entries n back e enough in
        let args : List Argument =
          number back ∷ string (codes " (") ∷ string name ∷ string (codes ")\n") ∷ [] in
        let (m, run, on) = print_all-Prints rounds args c h (words (u32 (f + 4)), tt) o in
        (m, rw found run, on)

    trace_loop-lines :
        (fuel p : ℕ) (fs : List ℕ) (c : Console)
        → Frames word p fs
        → length fs ≤ fuel
        → OnScreen c
        → (m : Console) × (trace_loop sm_table rounds entries word fuel p c ≡ some m)
          × (lines fs c ≡ some m)
          × OnScreen m
    unfolding trace_loop lines
    trace_loop-lines zero p [] c ch le o = absurd ch
    trace_loop-lines zero p (f ∷ fs) c ch le o = absurd (omega arith)
    trace_loop-lines (suc fuel) p [] c ch le o = absurd ch
    trace_loop-lines (suc fuel) p (f ∷ []) c ch le o =
        let (m, run, on) = trace_line-Prints f c o in
        (m, rw (ch.0, run, ==_false (page f) (page (word f)) ch.1) refl, rw run refl, on)
    trace_loop-lines (suc fuel) p (f ∷ g ∷ fs) c ch le o =
        let (k, run, on) = trace_line-Prints f c o in
        let (m, more, printed, there) =
          trace_loop-lines fuel (word f) (g ∷ fs) k ch.2 (omega arith) on in
        let inside : (page f == page (word f)) ≡ true = ground (arith, ch.1) in
        (m, rw (ch.0, run, inside) more, rw run printed, there)

    -- For a table of symbols that ends, words of 32 bits, eight rounds for a tab, the cursor on the
    -- screen and a chain of frames that ends with a pointer out of its page, `db_stack_trace` with
    -- as many rounds as there are frames returns: it prints its heading and one line for each frame
    -- in turn, and the cursor is on the screen.
    pub db_stack_trace-lines :
        (fuel ebp : ℕ) (fs : List ℕ) (c : Console)
        → ebp ≢ 0
        → Frames word ebp fs
        → length fs ≤ fuel
        → OnScreen c
        → (m : Console) × (db_stack_trace sm_table rounds entries word fuel ebp c ≡ some m)
          × ((kc_print_string rounds (codes "Stack trace:\n") c >>= lines fs) ≡ some m)
          × OnScreen m
    unfolding db_stack_trace
    db_stack_trace-lines fuel ebp fs c ne ch le o =
        let (k, head, on) = kc_print_string-Prints rounds (codes "Stack trace:\n") c h o in
        let (m, run, printed, there) = trace_loop-lines fuel ebp fs k ch le on in
        (m, rw (==_false ebp 0 ne, head) run, rw head printed, there)
