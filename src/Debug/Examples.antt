-- ===== src/Debug/Examples.antt =====
-- A chain of two stack frames.
use klos.Base.{ℕ, ◌≡◌, refl, some, List, [], ◌∷◌, ◌==◌, if◌then◌else◌, ◌>>=◌, arith}
use klos.Base.Text.{codes}
use klos.Console.{Console, kc_print_string}
use klos.Console.Write.{OnScreen}
use klos.Console.Scroll.{AreBytes}
use klos.Symbol.{Symbols}
use klos.Symbol.Resolve.{EndsAt}
use klos.Debug.{db_stack_trace}
use klos.Debug.Trace.{Frames, lines, db_stack_trace-lines}

abbrev symbols : Symbols (List ℕ)
symbols = record { address = λ i. if i == 0 then 0 else 0xFFFFFFFF; name = λ i. codes "start" }

symbols-EndsAt : EndsAt symbols 1
symbols-EndsAt = record { marked = refl; unmarked = λ i h e. ground arith }

abbrev stack : ℕ → ℕ
stack p = if p == 0xC0200100 then 0xC0200200 else if p == 0xC0200104 then 0xC0100010 else 0

stack-Frames : Frames stack 0xC0200100 (0xC0200100 ∷ 0xC0200200 ∷ [])
stack-Frames = (refl, refl, (refl, λ e. absurd (omega arith)))

abbrev screen : Console
screen = record { text = λ i. 0; text_base = 0xB8000; x = 0; y = 24; ports = [] }

screen-AreBytes : AreBytes screen
unfolding AreBytes
screen-AreBytes q = omega arith

screen-OnScreen : OnScreen screen
screen-OnScreen = record { x_lt = omega arith; y_lt = omega arith; bytes = screen-AreBytes }

db_stack_trace-lines_example :
    (m : Console) × (db_stack_trace symbols 8 2 stack 5 0xC0200100 screen ≡ some m)
    × ((kc_print_string 8 (codes "Stack trace:\n") screen
          >>= lines symbols 8 2 1 stack (0xC0200100 ∷ 0xC0200200 ∷ []))
        ≡ some m)
    × OnScreen m
db_stack_trace-lines_example =
    db_stack_trace-lines symbols 8 2 1 stack (omega arith) symbols-EndsAt (omega arith)
      (λ p. ground arith) 5 0xC0200100 (0xC0200100 ∷ 0xC0200200 ∷ []) screen
      (λ e. absurd (omega arith)) stack-Frames (omega arith) screen-OnScreen
