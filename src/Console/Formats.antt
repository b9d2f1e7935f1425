-- ===== src/Console/Formats.antt =====
-- `kc_printf` and `setup_console` of src/kernel/console.cpp return, with the cursor on the screen.
use mathlib.Core.Option.{some-injective, none-ne-some}
use klos.Base.{
  ℕ, zero, suc, ◌^◌, ◌<◌, ◌≤◌, ◌≡◌, refl, sym, subst, Option-cases, ◌∙◌, inl, true, false, Bool,
  inr, ◌||◌, Option, some, none, List, [], ◌∷◌, map, ◌==◌, if◌then◌else◌, Bool-cases, upto, update,
  arith,
}
use klos.Console.{
  Console, Argument, number, string, kc_print_integer, directive, kc_printf, put_text, clear_cell,
  kc_clear, kc_move_cursor, outb, setup_console,
}
use klos.Console.Write.{OnScreen}
use klos.Console.Scroll.{AreBytes}
use klos.Console.Numbers.{decimal_char, kc_print_integer-IsNumeral}
use klos.Console.Characters.{kc_write_character-Settled}
use klos.Console.Total.{Prints, AllPlain, plain_rounds, kc_print_string-Prints, kc_print_hex-Prints}

decimal_digits_plain : (ds : List ℕ) → AllPlain (map decimal_char ds)
decimal_digits_plain [] = tt
decimal_digits_plain (d ∷ ds) = ((λ e. omega arith), decimal_digits_plain ds)

pub kc_print_integer-Prints :
    (n : ℕ) (s : Console) → n < 2 ^ 32 → OnScreen s → Prints (kc_print_integer n s)
kc_print_integer-Prints n s h o =
    let (ds, run, _) = kc_print_integer-IsNumeral n s h in
    let text = map decimal_char ds in
    let (m, printed, on) = kc_print_string-Prints 8 text s (omega arith) o in
    (m, run ∙ sym (plain_rounds 8 text s (decimal_digits_plain ds)) ∙ printed, on)

-- The arguments that the directive `d` leaves; `none` where its argument is missing or of another type.
unfoldable pub takes : ℕ → List Argument → Option (List Argument)
takes d [] = if d == 100 || (d == 120 || d == 115) then none else some []
takes d (number v ∷ args) =
    if d == 100 || d == 120 then some args else if d == 115 then none else some (number v ∷ args)
takes d (string v ∷ args) =
    if d == 115 then some args else if d == 100 || d == 120 then none else some (string v ∷ args)

-- The directives of the format find their arguments.
unfoldable pub matches : List ℕ → List Argument → Bool
unfolding takes
matches [] args = true
matches (c ∷ []) args = true
matches (c ∷ d ∷ fmt) args =
    let plain = matches (d ∷ fmt) args in
    let shown : Bool = elim (takes d args) [ none ↦ false | some left ↦ matches fmt left ] in
    if c == 37 then shown else plain

-- The numbers among the arguments are 32-bit words.
abbrev pub AllWords : List Argument → Type 0
AllWords [] = Unit
AllWords (number v ∷ rest) = (v < 2 ^ 32) × AllWords rest
AllWords (string v ∷ rest) = AllWords rest

-- The outcome of a directive.
abbrev Shown : Option (List Argument × Console) → List Argument → Type 0
Shown o left = (n : Console) × (o ≡ some (left, n)) × OnScreen n × AllWords left

module _ (rounds : ℕ) (h : 8 ≤ rounds) where
  directive-Shown :
      (d : ℕ) (args left : List Argument) (s : Console)
      → takes d args ≡ some left
      → AllWords args
      → OnScreen s
      → Shown (directive rounds d args s) left
  unfolding directive takes
  directive-Shown d [] left s e w o = elim (Bool-cases (d == 100 || (d == 120 || d == 115))) [
    | inl t ↦ absurd (none-ne-some left (rw t at e))
    | inr f ↦
        subst (λ l. Shown (directive rounds d [] s) l) (some-injective _ left (rw f at e))
          (s, rw f refl, o, tt)
  ]
  directive-Shown d (number v ∷ args) left s e w o = elim (Bool-cases (d == 100)) [
    | inl i ↦
        let (n, run, on) = kc_print_integer-Prints v s w.0 o in
        subst (λ l. Shown (directive rounds d (number v ∷ args) s) l)
          (some-injective _ left (rw i at e)) (n, rw (i, run) refl, on, w.1)
    | inr ni ↦ elim (Bool-cases (d == 120)) [
      | inl x ↦
          let (n, run, on) = kc_print_hex-Prints v s w.0 o in
          subst (λ l. Shown (directive rounds d (number v ∷ args) s) l)
            (some-injective _ left (rw (ni, x) at e)) (n, rw (ni, x, run) refl, on, w.1)
      | inr nx ↦ elim (Bool-cases (d == 115)) [
        | inl t ↦ absurd (none-ne-some left (rw (ni, nx, t) at e))
        | inr f ↦
            subst (λ l. Shown (directive rounds d (number v ∷ args) s) l)
              (some-injective _ left (rw (ni, nx, f) at e)) (s, rw (ni, nx, f) refl, o, w)
      ]
    ]
  ]
  directive-Shown d (string v ∷ args) left s e w o = elim (Bool-cases (d == 115)) [
    | inl t ↦
        let (n, run, on) = kc_print_string-Prints rounds v s h o in
        subst (λ l. Shown (directive rounds d (string v ∷ args) s) l)
          (some-injective _ left (rw t at e)) (n, rw (t, run) refl, on, w)
    | inr f ↦ elim (Bool-cases (d == 100 || d == 120)) [
      | inl t ↦ absurd (none-ne-some left (rw (f, t) at e))
      | inr g ↦
          subst (λ l. Shown (directive rounds d (string v ∷ args) s) l)
            (some-injective _ left (rw (f, g) at e)) (s, rw (f, g) refl, o, w)
    ]
  ]

  -- With eight rounds for a tab, the cursor on the screen, and numbers of 32 bits, `kc_printf` of a format whose directives
  -- find their arguments returns, with the cursor on the screen.
  pub kc_printf-Prints :
      (fmt : List ℕ) (args : List Argument) (s : Console)
      → matches fmt args ≡ true
      → AllWords args
      → OnScreen s
      → Prints (kc_printf rounds fmt args s)
  unfolding kc_printf matches
  kc_printf-Prints [] args s m w o = (s, refl, o)
  kc_printf-Prints (c ∷ []) args s m w o = elim (Bool-cases (c == 37)) [
    | inl e ↦ (s, rw e refl, o)
    | inr e ↦
        let (n, run, d) = kc_write_character-Settled rounds c s h o in (n, rw e run, d.on_screen)
  ]
  kc_printf-Prints (c ∷ d ∷ fmt) args s m w o = elim (Bool-cases (c == 37)) [
    | inl e ↦ elim (Option-cases (takes d args)) [
      | inl t ↦ let missing : false ≡ true = rw (e, t) at m in cc
      | inr (left, t) ↦
          let (n, run, on, words) = directive-Shown d args left s t w o in
          let (k, more, there) = kc_printf-Prints fmt left n (rw (e, t) at m) words on in
          (k, rw (e, run) more, there)
    ]
    | inr e ↦
        let (n, run, r) = kc_write_character-Settled rounds c s h o in
        let (k, more, on) = kc_printf-Prints (d ∷ fmt) args n (rw e at m) w r.on_screen in
        (k, rw (e, run) more, on)
  ]

-- `setup_console` with bytes in the text memory puts the cursor on the screen.
clear_cell-AreBytes : (i : ℕ) (s : Console) → AreBytes s → AreBytes (clear_cell i s)
unfolding clear_cell put_text update AreBytes
clear_cell-AreBytes i s b = λ a. ground (arith, b a)

cleared-AreBytes : (n : ℕ) (s : Console) → AreBytes s → AreBytes (upto n clear_cell s)
unfolding upto
cleared-AreBytes zero s b = b
cleared-AreBytes (suc n) s b = clear_cell-AreBytes n (upto n clear_cell s) (cleared-AreBytes n s b)

pub setup_console-OnScreen : (s : Console) → AreBytes s → OnScreen (setup_console s)
unfolding setup_console kc_clear kc_move_cursor outb AreBytes
setup_console-OnScreen s b = record {
  x_lt = omega arith;
  y_lt = omega arith;
  bytes = cleared-AreBytes 2000 (record s { text_base = 0xB8000 }) b;
}
