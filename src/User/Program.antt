-- ===== src/User/Program.antt =====
-- All that the program of src/apps/helloworld.c prints.
use mathlib.Core.Path.{fun_ext}
use klos.Base.{ℕ, ◌+◌, ◌^◌, ◌<◌, ◌≤◌, ◌≡◌, sym, ap, ◌∙◌, Option, some, List, [], ◌∷◌, length, ◌>>=◌}
use klos.Base.Text.{codes}
use klos.Console.{Console, Argument, number, string, kc_print_string, kc_print_hex}
use klos.Console.Write.{OnScreen}
use klos.Console.Numbers.{>>=-some}
use klos.Debug.{print_all}
use klos.Debug.Trace.{print_all-Prints}
use klos.User.{Addresses, print_string, print_hex, main}
use klos.User.Output.{served, Holds, Placed, print_string-kc_print_string, print_hex-kc_print_hex}

-- A literal of the program in its memory, with fuel for its length.
pub record Literal (fuel : ℕ) (byte : ℕ → ℕ) (str : ℕ) (cs : List ℕ) : Type 0 where
  pub held : Holds byte str cs
  pub short : length cs < fuel
  pub room : str + length cs < 2 ^ 32

-- The literals and the array of digits are in the memory of the program.
pub record Loaded (fuel : ℕ) (byte : ℕ → ℕ) (at : Addresses) : Type 0 where
  pub placed : Placed at byte
  pub my_process : Literal fuel byte at.my_process (codes "\nMy process ID is: ")
  pub new_line : Literal fuel byte at.new_line (codes "\n")
  pub fork_returned : Literal fuel byte at.fork_returned (codes "Fork returned: ")
  pub left : Literal fuel byte at.left (codes "(")
  pub right : Literal fuel byte at.right (codes ")\n")

-- The calls of `main` one after the other.
abbrev script :
    (my nl fork left right pid frk : Console → Option Console) → Console → Option Console
script my nl fork left right pid frk c = my c >>= λ c₁. pid c₁ >>= λ c₂. nl c₂ >>= λ c₃.
    nl c₃ >>= λ c₄. fork c₄ >>= λ c₅. frk c₅ >>= λ c₆. left c₆ >>= λ c₇. pid c₇ >>= λ c₈. right c₈

-- What is printed, in order.
abbrev pub report : (pid frk : ℕ) → List Argument
report pid frk =
    string (codes "\nMy process ID is: ")
    ∷ number pid
    ∷ string (codes "\n")
    ∷ string (codes "\n")
    ∷ string (codes "Fork returned: ")
    ∷ number frk
    ∷ string (codes "(")
    ∷ number pid
    ∷ string (codes ")\n")
    ∷ []

module _ (rounds pid frk fuel : ℕ) (at : Addresses) (byte : ℕ → ℕ) (l : Loaded fuel byte at) where
  text :
      (str : ℕ) (cs : List ℕ)
      → Literal fuel byte str cs
      → print_string (served rounds pid frk) at fuel byte str ≡ kc_print_string rounds cs
  text str cs h =
      fun_ext (λ c.
        print_string-kc_print_string rounds pid frk fuel str at byte cs c h.held h.short h.room)

  digits : (nr : ℕ) → print_hex (served rounds pid frk) at fuel byte nr ≡ kc_print_hex nr
  digits nr = fun_ext (λ c. print_hex-kc_print_hex rounds pid frk fuel nr at byte c l.placed)

  main-print_all :
      (c : Console)
      → main (served rounds pid frk) at fuel byte c ≡ print_all rounds (report pid frk) c
  unfolding main print_all
  main-print_all c =
      let say = print_string (served rounds pid frk) at fuel byte in
      let hex = print_hex (served rounds pid frk) at fuel byte in
      let out = kc_print_string rounds in
      let my = codes "\nMy process ID is: " in
      let nl = codes "\n" in
      let fork = codes "Fork returned: " in
      let left = codes "(" in
      let right = codes ")\n" in
      ap
        (λ f.
          script f (say at.new_line) (say at.fork_returned) (say at.left) (say at.right) (hex pid)
            (hex frk) c)
        (text at.my_process my l.my_process)
      ∙ ap
          (λ f.
            script (out my) f (say at.fork_returned) (say at.left) (say at.right) (hex pid)
              (hex frk) c)
          (text at.new_line nl l.new_line)
      ∙ ap (λ f. script (out my) (out nl) f (say at.left) (say at.right) (hex pid) (hex frk) c)
          (text at.fork_returned fork l.fork_returned)
      ∙ ap (λ f. script (out my) (out nl) (out fork) f (say at.right) (hex pid) (hex frk) c)
          (text at.left left l.left)
      ∙ ap (λ f. script (out my) (out nl) (out fork) (out left) f (hex pid) (hex frk) c)
          (text at.right right l.right)
      ∙ ap (λ f. script (out my) (out nl) (out fork) (out left) (out right) f (hex frk) c)
          (digits pid)
      ∙ ap (λ f. script (out my) (out nl) (out fork) (out left) (out right) (kc_print_hex pid) f c)
          (digits frk)
      ∙ ap
          (λ f.
            script (out my) (out nl) (out fork) (out left) f (kc_print_hex pid) (kc_print_hex frk)
              c)
          (fun_ext (λ m. sym (>>=-some (out right m))))

-- Where the literals and the array of digits are in the memory of the program, with eight rounds for a tab, numbers of 32 bits from
-- the system calls and the cursor on the screen, the program ends, and has printed its two lines in the
-- way of the kernel's own printing, with the cursor on the screen.
pub main-Prints :
    (rounds pid frk fuel : ℕ) (at : Addresses) (byte : ℕ → ℕ) (c : Console)
    → Loaded fuel byte at
    → 8 ≤ rounds
    → pid < 2 ^ 32
    → frk < 2 ^ 32
    → OnScreen c
    → (n : Console) × (main (served rounds pid frk) at fuel byte c ≡ some n)
      × (print_all rounds (report pid frk) c ≡ some n)
      × OnScreen n
main-Prints rounds pid frk fuel at byte c l h p f o =
    let (n, run, on) = print_all-Prints rounds (report pid frk) c h (p, (f, (p, tt))) o in
    (n, main-print_all rounds pid frk fuel at byte l c ∙ run, run, on)
