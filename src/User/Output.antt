-- ===== src/User/Output.antt =====
-- What the program of src/apps/helloworld.c prints through the kernel's system call.
use mathlib.Core.Path.{fun_ext}
use klos.Base.{
  ℕ, zero, suc, ◌+◌, ◌*◌, ◌^◌, ◌<◌, ◌≤◌, ◌≡◌, ◌≢◌, refl, sym, subst, ap, ◌∙◌, ◌⊎◌, inl, inr, Bool,
  false, ◌||◌, not, some, List, [], ◌∷◌, length, ◌==◌, ==_false, if◌then◌else◌, Bool-cases, u32,
  update, upto, bit_and, ◌>>>◌, ◌>>=◌, arith,
}
use klos.Base.Bits.{bit_and_low}
use klos.Console.{Console, hex_char, kc_write_character, kc_print_string, hex_loop, kc_print_hex}
use klos.Interrupt.Handlers.{write_loop}
use klos.User.{
  SystemCalls, Addresses, strlen_loop, strlen, fill_chars, print_string, digits_loop, print_hex,
}

-- The system calls as the kernel's console sees them.
abbrev pub served : (rounds : ℕ) → (pid frk : ℕ) → SystemCalls Console
served rounds pid frk = record {
  sys_write = λ byte string length c. write_loop rounds byte length string 0 c;
  sys_getpid = λ c. (pid, c);
  sys_fork = λ c. (frk, c);
}

-- The text, without zeros, lies in memory from `str` on, with a zero behind it.
abbrev pub Holds : (ℕ → ℕ) → ℕ → List ℕ → Type 0
Holds byte str [] = byte str ≡ 0
Holds byte str (c ∷ cs) = (byte str ≡ c) × (c ≢ 0) × Holds byte (str + 1) cs

strlen_loop-Holds :
    (fuel : ℕ) (byte : ℕ → ℕ) (str n : ℕ) (cs : List ℕ)
    → Holds byte str cs
    → length cs < fuel
    → str + length cs < 2 ^ 32
    → n + length cs < 2 ^ 32
    → strlen_loop fuel byte str n ≡ some (n + length cs)
unfolding strlen_loop
strlen_loop-Holds zero byte str n cs h f room fits = absurd (omega arith)
strlen_loop-Holds (suc fuel) byte str n [] h f room fits = rw h (ap some (omega arith))
strlen_loop-Holds (suc fuel) byte str n (c ∷ cs) h f room fits =
    let next : u32 (str + 1) ≡ str + 1 = omega arith in
    let count : u32 (n + 1) ≡ n + 1 = omega arith in
    rw (h.0, ==_false c 0 h.1, next, count)
      (strlen_loop-Holds fuel byte (str + 1) (n + 1) cs h.2 (omega arith) (omega arith)
          (omega arith)
        ∙ ap some (omega arith))

write_loop-Holds :
    (rounds : ℕ) (byte : ℕ → ℕ) (str i : ℕ) (cs : List ℕ) (c : Console)
    → Holds byte (str + i) cs
    → str + i + length cs < 2 ^ 32
    → write_loop rounds byte (length cs) str i c ≡ kc_print_string rounds cs c
unfolding write_loop kc_print_string
write_loop-Holds rounds byte str i [] c h room = refl
write_loop-Holds rounds byte str i (d ∷ cs) c h room =
    let here : u32 (str + i) ≡ str + i = omega arith in
    let next : str + i + 1 ≡ str + suc i = omega arith in
    rw (here, h.0)
      (ap (λ f. kc_write_character rounds d c >>= f)
        (fun_ext
          (λ n. write_loop-Holds rounds byte str (suc i) cs n (rw next at h.2) (omega arith))))

-- Where a text without zeros lies in the program's memory, `print_string` prints it as the kernel's `kc_print_string` does.
pub print_string-kc_print_string :
    (rounds pid frk fuel str : ℕ) (at : Addresses) (byte : ℕ → ℕ) (cs : List ℕ) (c : Console)
    → Holds byte str cs
    → length cs < fuel
    → str + length cs < 2 ^ 32
    → print_string (served rounds pid frk) at fuel byte str c ≡ kc_print_string rounds cs c
unfolding print_string strlen
print_string-kc_print_string rounds pid frk fuel str at byte cs c h f room =
    let same : str + 0 ≡ str = omega arith in
    rw (strlen_loop-Holds fuel byte str 0 cs h f room (omega arith)) (
      ap (λ n. write_loop rounds byte n str 0 c) (omega arith)
      ∙ write_loop-Holds rounds byte str 0 cs c (subst (λ p. Holds byte p cs) (sym same) h)
          (omega arith))

-- One character that is not a tab.
write_one :
    (rounds a d : ℕ) (byte : ℕ → ℕ) (c : Console)
    → a < 2 ^ 32
    → byte a ≡ d
    → d ≢ 9
    → write_loop rounds byte 1 a 0 c ≡ kc_write_character 0 d c
unfolding write_loop kc_write_character
write_one rounds a d byte c room e ne =
    let here : u32 (a + 0) ≡ a = omega arith in rw (here, e, ==_false d 9 ne) refl

-- The array of digits is where the compiler put it, apart from the literals `0` and `x`.
pub record Placed (at : Addresses) (byte : ℕ → ℕ) : Type 0 where
  pub zero_held : byte at.zero_digit ≡ 48
  pub x_held : byte at.letter_x ≡ 120
  pub zero_room : at.zero_digit < 2 ^ 32
  pub x_room : at.letter_x < 2 ^ 32
  pub chars_room : at.kc_hex_chars + 16 ≤ 2 ^ 32
  pub zero_apart : (at.zero_digit < at.kc_hex_chars) ⊎ (at.kc_hex_chars + 16 ≤ at.zero_digit)
  pub x_apart : (at.letter_x < at.kc_hex_chars) ⊎ (at.kc_hex_chars + 16 ≤ at.letter_x)

fill_chars-digit :
    (chars t : ℕ) (byte : ℕ → ℕ) → t < 16 → fill_chars chars byte (chars + t) ≡ hex_char t
unfolding fill_chars hex_char upto update
fill_chars-digit chars t byte h = ground arith

fill_chars-else :
    (chars a : ℕ) (byte : ℕ → ℕ) → (a < chars) ⊎ (chars + 16 ≤ a) → fill_chars chars byte a ≡ byte a
unfolding fill_chars upto update
fill_chars-else chars a byte h = ground arith

not_tab : (d : ℕ) → 9 < d → d ≢ 9
not_tab d h = λ e. absurd (omega arith)

digit_not_tab : (t : ℕ) → t < 16 → hex_char t ≢ 9
unfolding hex_char
digit_not_tab t h = λ e. ground arith

module _ (rounds pid frk fuel : ℕ) (at : Addresses) (byte : ℕ → ℕ) (p : Placed at byte) where
  abbrev chars : ℕ
  chars = at.kc_hex_chars

  abbrev calls : SystemCalls Console
  calls = served rounds pid frk

  write_digit :
      (t : ℕ) (c : Console)
      → t < 16
      → write_loop rounds (fill_chars chars byte) 1 (chars + t) 0 c
        ≡ kc_write_character 0 (hex_char t) c
  write_digit t c h =
      write_one rounds (chars + t) (hex_char t) (fill_chars chars byte) c
        (omega (arith, p.chars_room)) (fill_chars-digit chars t byte h) (digit_not_tab t h)

  digits_loop-hex_loop :
      (n nr : ℕ) (j : Bool) (c : Console)
      → digits_loop calls at fuel (fill_chars chars byte) n nr j c ≡ hex_loop n nr j c
  unfolding digits_loop hex_loop
  digits_loop-hex_loop zero nr j c = refl
  digits_loop-hex_loop (suc i) nr j c =
      let t = bit_and (nr >>> (i * 4)) 0xF in
      let small : t < 16 = omega (arith, bit_and_low 4 (nr >>> (i * 4))) in
      let started = j || not (t == 0) in
      ap
        (λ o. (if started then o else some c) >>= λ r.
          digits_loop calls at fuel (fill_chars chars byte) i nr started r)
        (write_digit t c small)
      ∙ ap (λ f. (if started then kc_write_character 0 (hex_char t) c else some c) >>= f)
          (fun_ext (λ r. digits_loop-hex_loop i nr started r))

  literal :
      (a d : ℕ) (c : Console)
      → a < 2 ^ 32
      → byte a ≡ d
      → (a < chars) ⊎ (chars + 16 ≤ a)
      → d ≢ 9
      → write_loop rounds (fill_chars chars byte) 1 a 0 c ≡ kc_write_character 0 d c
  literal a d c room e apart ne =
      write_one rounds a d (fill_chars chars byte) c room (fill_chars-else chars a byte apart ∙ e)
        ne

-- Where the literals `0` and `x` and the array of digits lie apart below 4 GB, `print_hex` of the program prints through the
-- system call what the kernel's `kc_print_hex` prints.
pub print_hex-kc_print_hex :
    (rounds pid frk fuel nr : ℕ) (at : Addresses) (byte : ℕ → ℕ) (c : Console)
    → Placed at byte
    → print_hex (served rounds pid frk) at fuel byte nr c ≡ kc_print_hex nr c
unfolding print_hex kc_print_hex
print_hex-kc_print_hex rounds pid frk fuel nr at byte c p =
    let filled = fill_chars at.kc_hex_chars byte in
    let zero_there = λ (m : Console).
      literal rounds pid frk fuel at byte p at.zero_digit 48 m p.zero_room p.zero_held p.zero_apart
        (not_tab 48 (omega arith)) in
    let x_there = λ (m : Console).
      literal rounds pid frk fuel at byte p at.letter_x 120 m p.x_room p.x_held p.x_apart
        (not_tab 120 (omega arith)) in
    let calls = served rounds pid frk in
    let rest = λ (m : Console).
      if nr == 0
      then write_loop rounds filled 1 at.zero_digit 0 m
      else digits_loop calls at fuel filled 8 nr false m in
    let last : (n : Console)
        → rest n ≡ (if nr == 0 then kc_write_character 0 48 n else hex_loop 8 nr false n) =
      λ n. elim (Bool-cases (nr == 0)) [
        | inl e ↦ rw e (zero_there n)
        | inr e ↦ rw e (digits_loop-hex_loop rounds pid frk fuel at byte p 8 nr false n)
      ] in
    ap (λ o. o >>= λ m. write_loop rounds filled 1 at.letter_x 0 m >>= rest) (zero_there c)
    ∙ ap (λ f. kc_write_character 0 48 c >>= f)
        (fun_ext (λ m.
          ap (λ o. o >>= rest) (x_there m)
          ∙ ap (λ f. kc_write_character 0 120 m >>= f) (fun_ext last)))
