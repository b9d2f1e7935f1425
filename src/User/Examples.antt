-- ===== src/User/Examples.antt =====
-- A memory with the literals of the program, and the theorems at it.
use klos.Base.{
  ℕ, zero, suc, ◌+◌, ◌≡◌, refl, inl, true, Bool, ◌&&◌, not, ◌==◌, List, [], ◌∷◌, ◌++◌, some, arith,
}
use klos.Base.Text.{codes}
use klos.Console.{Console}
use klos.Console.Write.{OnScreen}
use klos.Console.Scroll.{AreBytes}
use klos.Debug.{print_all}
use klos.User.{Addresses, main}
use klos.User.Output.{served, Holds, Placed}
use klos.User.Program.{Loaded, report, main-Prints}

holds : (ℕ → ℕ) → ℕ → List ℕ → Bool
holds byte str [] = byte str == 0
holds byte str (c ∷ cs) = byte str == c && (not (c == 0) && holds byte (str + 1) cs)

holds-Holds : (byte : ℕ → ℕ) (str : ℕ) (cs : List ℕ) → holds byte str cs ≡ true → Holds byte str cs
unfolding holds
holds-Holds byte str [] h = ground arith
holds-Holds byte str (c ∷ cs) h =
    (ground arith, ground arith, holds-Holds byte (str + 1) cs (ground arith))

-- The literals in the order of the source, each with a zero behind it.
abbrev literals : List ℕ
literals =
    48 ∷ 0 ∷ 120 ∷ 0 ∷ codes "\nMy process ID is: "
    ++ 0 ∷ codes "\n"
    ++ 0 ∷ codes "Fork returned: "
    ++ 0 ∷ codes "("
    ++ 0 ∷ codes ")\n"
    ++ 0 ∷ []

byte_of : List ℕ → ℕ → ℕ
byte_of [] p = 0
byte_of (c ∷ cs) zero = c
byte_of (c ∷ cs) (suc p) = byte_of cs p

abbrev memory : ℕ → ℕ
memory = byte_of literals

abbrev addresses : Addresses
addresses = record {
  zero_digit = 0;
  letter_x = 2;
  my_process = 4;
  new_line = 24;
  fork_returned = 26;
  left = 42;
  right = 44;
  kc_hex_chars = 100;
}

memory-Placed : Placed addresses memory
unfolding byte_of
memory-Placed = record {
  zero_held = refl;
  x_held = refl;
  zero_room = omega arith;
  x_room = omega arith;
  chars_room = omega arith;
  zero_apart = inl (omega arith);
  x_apart = inl (omega arith);
}

memory-Loaded : Loaded 20 memory addresses
unfolding byte_of holds
memory-Loaded = record {
  placed = memory-Placed;
  my_process = record {
    held = holds-Holds memory 4 (codes "\nMy process ID is: ") refl;
    short = omega arith;
    room = omega arith;
  };
  new_line = record {
    held = holds-Holds memory 24 (codes "\n") refl;
    short = omega arith;
    room = omega arith;
  };
  fork_returned = record {
    held = holds-Holds memory 26 (codes "Fork returned: ") refl;
    short = omega arith;
    room = omega arith;
  };
  left = record {
    held = holds-Holds memory 42 (codes "(") refl;
    short = omega arith;
    room = omega arith;
  };
  right = record {
    held = holds-Holds memory 44 (codes ")\n") refl;
    short = omega arith;
    room = omega arith;
  };
}

abbrev blank : Console
blank = record { text = λ i. 0; text_base = 0; x = 0; y = 0; ports = [] }

blank-OnScreen : OnScreen blank
unfolding AreBytes
blank-OnScreen = record { x_lt = omega arith; y_lt = omega arith; bytes = λ i. omega arith }

main-Prints_example :
    (n : Console) × (main (served 8 1 2) addresses 20 memory blank ≡ some n)
    × (print_all 8 (report 1 2) blank ≡ some n)
    × OnScreen n
main-Prints_example =
    main-Prints 8 1 2 20 addresses memory blank memory-Loaded (omega arith) (omega arith)
      (omega arith) blank-OnScreen
