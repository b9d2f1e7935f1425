-- ===== src/Memory/Examples.antt =====
-- A small allocator with two high pages and one low page, and the theorems at it.
use klos.Base.{ℕ, ◌≡◌, refl, List, [], ◌∷◌, arith, update, count, ◌∉◌}
use klos.Memory.{FrameStacks, mm_page_allocate}
use klos.Memory.Refinement.{IsFrames, take_frame, mm_page_allocate-IsFrames}
use klos.Memory.Ownership.{System, takes, Reach, start, later, Inv, highs, Reach-Inv, fresh_page}

abbrev small : FrameStacks
small = record {
  hi_stack = 0xC1500008;
  lo_stack = 0xC1900004;
  word =
      update (update (update (λ _. 0) 0xC1500000 0x200000) 0xC1500004 0x201000) 0xC1900000 0x9000;
}

abbrev hi_pages : List ℕ
hi_pages = 0x201000 ∷ 0x200000 ∷ []

abbrev lo_pages : List ℕ
lo_pages = 0x9000 ∷ []

small-IsFrames : IsFrames small hi_pages lo_pages
unfolding update
small-IsFrames = record {
  hi_holds = (omega arith, refl, (omega arith, refl, refl));
  lo_holds = (omega arith, refl, refl);
  hi_room = omega arith;
  lo_room = omega arith;
}

newest_first : (mm_page_allocate small).0 ≡ 0x201000
unfolding mm_page_allocate update
newest_first = refl

mm_page_allocate-IsFrames_example :
    ((mm_page_allocate small).0 ≡ (take_frame hi_pages lo_pages).0)
    × IsFrames
        (mm_page_allocate small).1
        (take_frame hi_pages lo_pages).1.hi
        (take_frame hi_pages lo_pages).1.lo
mm_page_allocate-IsFrames_example = mm_page_allocate-IsFrames small hi_pages lo_pages small-IsFrames

abbrev all_pages : List ℕ
all_pages = 0x9000 ∷ 0x201000 ∷ 0x200000 ∷ []

abbrev all_free : System
all_free = record { stacks = small; owned = [] }

all_free-Inv : Inv all_pages 2 1 all_free hi_pages lo_pages
unfolding highs count
all_free-Inv = record {
  frames = small-IsFrames;
  conserved = λ a. ground arith;
  no_null = refl;
  all_high = omega arith;
  all_low = omega arith;
  high_total = refl;
  low_total = refl;
}

abbrev one_held : System
unfolding mm_page_allocate update
one_held = record { stacks = (mm_page_allocate small).1; owned = 0x201000 ∷ [] }

one_taken : Reach all_free one_held
unfolding one_held
one_taken = later start (takes (λ e. absurd (omega arith)))

Reach-Inv_example : (hi : List ℕ) × (lo : List ℕ) × Inv all_pages 2 1 one_held hi lo
Reach-Inv_example = Reach-Inv (omega arith) (omega arith) all_free-Inv one_taken

fresh_page_example : (mm_page_allocate one_held.stacks).0 ∉ 0x201000 ∷ []
unfolding one_held count
fresh_page_example =
    fresh_page (omega arith) (omega arith) (λ a. ground arith) all_free-Inv one_taken
      (λ e. absurd (omega arith))
