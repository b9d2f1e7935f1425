-- ===== src/Console.antt =====
-- The text console of src/kernel/console.cpp: the text memory, the cursor and the printing of numbers
-- and formats. The controller's ports are seen as the list of the bytes that were written to them.
pub mod Scroll
pub mod Write
pub mod Characters
pub mod Digits
pub mod Numbers
pub mod Total
pub mod Formats
mod Examples
use klos.Base.{
  ℕ, zero, suc, ◌+◌, ◌-◌, ◌*◌, ◌/◌, ◌%◌, ◌^◌, Bool, true, false, ◌&&◌, ◌||◌, not, Option, none,
  some, List, [], ◌∷◌, ltb, ◌==◌, if◌then◌else◌, u8, u16, u32, sub32, update, upto, bit_and, ◌>>>◌,
  ◌>>=◌,
}

-- `kc_screen_width` and `kc_screen_height`, which only `setup_console` assigns.
abbrev pub width : ℕ
width = 80

abbrev pub height : ℕ
height = 25

-- The text memory by its offset from `kc_text_base`, `kc_text_base`, the cursor, and the writes
-- `(value, port)` of `outb`, the last one first.
pub record Console : Type 0 where
  pub text : ℕ → ℕ
  pub text_base : ℕ
  pub x : ℕ
  pub y : ℕ
  pub ports : List (ℕ × ℕ)

unfoldable pub put_text : ℕ → ℕ → Console → Console
put_text i v s = record s { text = update s.text i (u8 v) }

unfoldable pub outb : (value port : ℕ) → Console → Console
outb value port s = record s { ports = (value, port) ∷ s.ports }

unfoldable pub kc_set_text_base : ℕ → Console → Console
kc_set_text_base base s = record s { text_base = base }

unfoldable pub kc_move_cursor : (x y : ℕ) → Console → Console
unfolding outb
kc_move_cursor x y s =
    let position = u16 (y * width + x) in
    outb (bit_and position 0xFF) 0x3D5
      (outb 0x0F 0x3D4 (outb (bit_and (position >>> 8) 0xFF) 0x3D5 (outb 0x0E 0x3D4 s)))

-- Character cell i becomes empty.
unfoldable pub clear_cell : ℕ → Console → Console
unfolding put_text
clear_cell i s = put_text (i * 2 + 1) 7 (put_text (i * 2 + 0) 0 s)

unfoldable pub kc_clear : Console → Console
unfolding kc_move_cursor
kc_clear s =
    let cleared = upto (width * height) clear_cell s in
    kc_move_cursor 0 0 (record cleared { x = 0; y = 0 })

-- `setup_console`, but for the table of hexadecimal digits, which is `hex_char`.
unfoldable pub setup_console : Console → Console
setup_console s = kc_clear (record s { text_base = 0xB8000 })

unfoldable pub hex_char : ℕ → ℕ
hex_char i = if ltb i 10 then 48 + i else 65 + i - 10

-- The cell k of row i is copied to the row above.
unfoldable pub copy_cell : (i k : ℕ) → Console → Console
unfolding put_text
copy_cell i k s =
    let first = put_text (((i - 1) * width + k) * 2 + 0) (s.text ((i * width + k) * 2 + 0)) s in
    put_text (((i - 1) * width + k) * 2 + 1) (first.text ((i * width + k) * 2 + 1)) first

unfoldable pub clear_last_row : Console → Console
clear_last_row s = upto width (λ k. clear_cell (height * width - width + k)) s

unfoldable pub kc_scroll : Console → Console
kc_scroll s = clear_last_row (upto (height - 1) (λ i. upto width (copy_cell (suc i))) s)

-- The end of `kc_write_character`: the cursor is put back on the screen.
unfoldable pub settle : Console → Console
settle s =
    let wrapped = if ltb s.x width then s else record s { x = 0; y = u8 (s.y + 1) } in
    let lower = record wrapped { y = wrapped.y - 1 } in
    let on_screen = if ltb (height - 1) wrapped.y then kc_scroll lower else wrapped in
    kc_move_cursor on_screen.x on_screen.y on_screen

-- `kc_write_character` of a character that is not a tab.
unfoldable pub write_plain : ℕ → Console → Console
unfolding put_text
write_plain c s =
    let cell = (s.x + s.y * width) * 2 in
    let put = put_text (cell + 1) 7 (put_text (cell + 0) c s) in
    settle
      (if c == 10 then record s { x = 0; y = u8 (s.y + 1) } else record put { x = u8 (s.x + 1) })

-- The loop for a tab, which writes spaces; `none` means that the fuel ran out.
unfoldable pub tab_loop : ℕ → Console → Option Console
tab_loop zero s = none
tab_loop (suc fuel) s =
    let rest = tab_loop fuel (write_plain 32 s) in if s.x % 8 == 0 then some s else rest

unfoldable pub kc_write_character : (fuel c : ℕ) → Console → Option Console
unfolding tab_loop
kc_write_character fuel c s =
    if c == 9 then (tab_loop fuel s >>= λ n. some (settle n)) else some (write_plain c s)

unfoldable pub kc_print_string : (fuel : ℕ) → List ℕ → Console → Option Console
kc_print_string fuel [] s = some s
kc_print_string fuel (c ∷ string) s =
    kc_write_character fuel c s >>= λ n. kc_print_string fuel string n

-- The loop of `kc_print_integer`: i is the divisor and j says that a digit has been printed.
unfoldable pub integer_loop : (fuel i nr : ℕ) → Bool → Console → Option Console
integer_loop zero i nr j s = none
integer_loop (suc fuel) i nr j s =
    let digit = nr / i in
    let started = j || not (digit == 0) in
    let rest = integer_loop fuel (i / 10) (sub32 nr (u32 (digit * i))) started in
    let shown = if started then kc_write_character 0 (48 + digit) s else some s in
    if i == 0 then some s else (shown >>= λ n. rest n)

unfoldable pub kc_print_integer : ℕ → Console → Option Console
unfolding integer_loop
kc_print_integer nr s =
    if nr == 0 then kc_write_character 0 48 s else integer_loop 11 1000000000 nr false s

-- The rounds of `kc_print_hex` from i = n - 1 down to 0.
unfoldable pub hex_loop : (n nr : ℕ) → Bool → Console → Option Console
hex_loop zero nr j s = some s
hex_loop (suc i) nr j s =
    let tmp = bit_and (nr >>> (i * 4)) 0xF in
    let started = j || not (tmp == 0) in
    let shown = if started then kc_write_character 0 (hex_char tmp) s else some s in
    shown >>= λ n. hex_loop i nr started n

unfoldable pub kc_print_hex : ℕ → Console → Option Console
unfolding hex_loop
kc_print_hex nr s = kc_write_character 0 48 s >>= λ m. kc_write_character 0 120 m >>= λ n.
    if nr == 0 then kc_write_character 0 48 n else hex_loop 8 nr false n

-- An argument of `kc_printf`.
pub data Argument : Type 0 where
  number : ℕ → Argument
  string : List ℕ → Argument

-- The `switch` on the character after `%`, with the arguments that are left.
unfoldable pub directive : (fuel d : ℕ) → List Argument → Console → Option (List Argument × Console)
directive fuel d [] s = if d == 100 || (d == 120 || d == 115) then none else some ([], s)
directive fuel d (number v ∷ args) s =
    if d == 100
    then (kc_print_integer v s >>= λ n. some (args, n))
    else if d == 120
    then (kc_print_hex v s >>= λ n. some (args, n))
    else if d == 115
    then none
    else some (number v ∷ args, s)
directive fuel d (string v ∷ args) s =
    if d == 115
    then (kc_print_string fuel v s >>= λ n. some (args, n))
    else if d == 100 || d == 120
    then none
    else some (string v ∷ args, s)

-- `kc_printf`; `none` also stands for an argument that is missing or of another type.
unfoldable pub kc_printf : (fuel : ℕ) → List ℕ → List Argument → Console → Option Console
kc_printf fuel [] args s = some s
kc_printf fuel (c ∷ []) args s = if c == 37 then some s else kc_write_character fuel c s
kc_printf fuel (c ∷ d ∷ fmt) args s =
    let plain = kc_write_character fuel c s >>= λ n. kc_printf fuel (d ∷ fmt) args n in
    let shown = directive fuel d args s >>= λ (left, n). kc_printf fuel fmt left n in
    if c == 37 then shown else plain
