-- ===== src/Console/Total.antt =====
-- The printing of src/kernel/console.cpp returns, and leaves the cursor on the screen.
use klos.Base.{
  ℕ, ◌^◌, ◌<◌, ◌≤◌, ◌≡◌, ◌≢◌, refl, sym, ap, ◌∙◌, Option, some, List, [], ◌∷◌, map, ==_false, ◌>>=◌,
  arith,
}
use klos.Console.{Console, kc_write_character, kc_print_string, kc_print_hex, hex_char, write_plain}
use klos.Console.Write.{OnScreen}
use klos.Console.Characters.{kc_write_character-Settled}
use klos.Console.Digits.{AllBelow}
use klos.Console.Numbers.{kc_print_hex-IsNumeral}

-- A call returns, with the cursor on the screen.
abbrev pub Prints : Option Console → Type 0
Prints o = (n : Console) × (o ≡ some n) × OnScreen n

pub Prints-bind :
    (o : Option Console) (f : Console → Option Console)
    → Prints o
    → ((n : Console) → OnScreen n → Prints (f n))
    → Prints (o >>= f)
Prints-bind o f p q =
    let (n, run, on) = p in
    let (m, more, there) = q n on in (m, ap (λ x. x >>= f) run ∙ more, there)

-- Eight rounds for each tab are enough.
pub kc_print_string-Prints :
    (rounds : ℕ) (cs : List ℕ) (s : Console)
    → 8 ≤ rounds
    → OnScreen s
    → Prints (kc_print_string rounds cs s)
unfolding kc_print_string
kc_print_string-Prints rounds [] s h o = (s, refl, o)
kc_print_string-Prints rounds (c ∷ cs) s h o =
    Prints-bind (kc_write_character rounds c s) (kc_print_string rounds cs)
      (let (n, run, d) = kc_write_character-Settled rounds c s h o in (n, run, d.on_screen))
      (λ n on. kc_print_string-Prints rounds cs n h on)

-- Text without tabs needs no rounds.
abbrev pub AllPlain : List ℕ → Type 0
AllPlain [] = Unit
AllPlain (c ∷ cs) = (c ≢ 9) × AllPlain cs

pub plain_rounds :
    (rounds : ℕ) (cs : List ℕ) (s : Console)
    → AllPlain cs
    → kc_print_string rounds cs s ≡ kc_print_string 0 cs s
unfolding kc_print_string kc_write_character
plain_rounds rounds [] s h = refl
plain_rounds rounds (c ∷ cs) s h =
    rw (==_false c 9 h.0) (plain_rounds rounds cs (write_plain c s) h.1)

hex_digits_plain : (ds : List ℕ) → AllBelow 16 ds → AllPlain (map hex_char ds)
unfolding hex_char
hex_digits_plain [] h = tt
hex_digits_plain (d ∷ ds) h = ((λ e. ground (arith, h.0)), hex_digits_plain ds h.1)

pub kc_print_hex-Prints :
    (n : ℕ) (s : Console) → n < 2 ^ 32 → OnScreen s → Prints (kc_print_hex n s)
kc_print_hex-Prints n s h o =
    let (ds, run, v) = kc_print_hex-IsNumeral n s h in
    let text : List ℕ = 48 ∷ 120 ∷ map hex_char ds in
    let plain : AllPlain text =
      ((λ e. absurd (omega arith)), ((λ e. absurd (omega arith)), hex_digits_plain ds v.below)) in
    let (m, printed, on) = kc_print_string-Prints 8 text s (omega arith) o in
    (m, run ∙ sym (plain_rounds 8 text s plain) ∙ printed, on)
