-- ===== src/Console/Examples.antt =====
-- A console with its cursor in the last cell of the screen.
use klos.Base.{◌≡◌, some, [], arith}
use klos.Base.{map, List, ℕ}
use klos.Console.{kc_print_string, kc_print_integer}
use klos.Console.Digits.{IsNumeral}
use klos.Console.Numbers.{decimal_char, kc_print_integer-IsNumeral}
use klos.Console.{Console, kc_write_character}
use klos.Console.Scroll.{AreBytes}
use klos.Console.Write.{OnScreen, Settled, fitted, advanced}
use klos.Console.Characters.{kc_write_character-Settled}

abbrev last_cell : Console
last_cell = record { text = λ i. 65; text_base = 0xB8000; x = 79; y = 24; ports = [] }

last_cell-AreBytes : AreBytes last_cell
unfolding AreBytes
last_cell-AreBytes = λ i. omega arith

last_cell-OnScreen : OnScreen last_cell
last_cell-OnScreen = record { x_lt = omega arith; y_lt = omega arith; bytes = last_cell-AreBytes }

kc_write_character-Settled_example :
    (n : Console) × (kc_write_character 8 9 last_cell ≡ some n)
    × Settled (fitted (advanced 9 1999)) last_cell.text n
kc_write_character-Settled_example =
    kc_write_character-Settled 8 9 last_cell (omega arith) last_cell-OnScreen

kc_print_integer-IsNumeral_example :
    (ds : List ℕ) × (kc_print_integer 4050 last_cell
      ≡ kc_print_string 0 (map decimal_char ds) last_cell)
    × IsNumeral 10 4050 ds
kc_print_integer-IsNumeral_example = kc_print_integer-IsNumeral 4050 last_cell (omega arith)
