-- ===== src/Memory/Refinement.antt =====
-- The two stacks in memory refine two lists of pages.
use klos.Base.{
  ℕ, ◌+◌, ◌-◌, ◌≤◌, ◌<◌, ◌≡◌, List, [], ◌∷◌, arith, length, ltb, if◌then◌else◌, Bool-cases, inl,
  inr, u32, ==_iff,
}
use klos.Memory.{FrameStacks, hi_base, lo_base, mm_page_allocate_lo, mm_page_allocate, mm_page_free}
use klos.Memory.Stack.{Holds, Holds-ptr, Holds-update, Holds-push}

-- The abstract allocator: the free pages of either kind, the next to go first.
pub record Frames : Type 0 where
  pub hi : List ℕ
  pub lo : List ℕ

unfoldable pub take_lo : List ℕ → List ℕ → ℕ × Frames
take_lo hi [] = (0, record { hi = hi; lo = [] })
take_lo hi (x ∷ lo) = (x, record { hi = hi; lo = lo })

unfoldable pub take_frame : List ℕ → List ℕ → ℕ × Frames
unfolding take_lo
take_frame [] lo = take_lo [] lo
take_frame (x ∷ hi) lo = (x, record { hi = hi; lo = lo })

unfoldable pub give_frame : ℕ → Frames → Frames
give_frame page f =
    if ltb page 0x100000 then record f { lo = page ∷ f.lo } else record f { hi = page ∷ f.hi }

-- The stack of high pages has 4 MB before the low stack begins; there are 256 pages below 1 MB.
pub record IsFrames (s : FrameStacks) (hi lo : List ℕ) : Type 0 where
  pub hi_holds : Holds s.word hi_base s.hi_stack hi
  pub lo_holds : Holds s.word lo_base s.lo_stack lo
  pub hi_room : length hi ≤ 0x100000
  pub lo_room : length lo ≤ 0x100

allocate_lo-IsFrames :
    (s : FrameStacks) (hi lo : List ℕ)
    → IsFrames s hi lo
    → let r = take_lo hi lo in
      ((mm_page_allocate_lo s).0 ≡ r.0) × IsFrames (mm_page_allocate_lo s).1 r.1.hi r.1.lo
unfolding mm_page_allocate_lo take_lo
allocate_lo-IsFrames s hi [] v = ground arith
allocate_lo-IsFrames s hi (x ∷ lo) v = ground (arith, Holds-ptr s.word lo_base (s.lo_stack - 4) lo)

-- `mm_page_allocate` takes the newest high page, else the newest low page, and else gives 0; what
-- it leaves on the stacks is what the lists keep.
pub mm_page_allocate-IsFrames :
    (s : FrameStacks) (hi lo : List ℕ)
    → IsFrames s hi lo
    → ((mm_page_allocate s).0 ≡ (take_frame hi lo).0)
      × IsFrames (mm_page_allocate s).1 (take_frame hi lo).1.hi (take_frame hi lo).1.lo
unfolding mm_page_allocate take_frame
mm_page_allocate-IsFrames s [] lo v =
    rw ((==_iff _ _).1 v.hi_holds) (allocate_lo-IsFrames s [] lo v)
mm_page_allocate-IsFrames s (x ∷ hi) lo v =
    ground (arith, Holds-ptr s.word hi_base (s.hi_stack - 4) hi)

-- Where the stack of the page's kind has room, `mm_page_free` puts the page on top of it and
-- leaves the other stack as it is.
pub mm_page_free-IsFrames :
    (page : ℕ) (s : FrameStacks) (hi lo : List ℕ)
    → IsFrames s hi lo
    → (0x100000 ≤ page → length hi < 0x100000)
    → (page < 0x100000 → length lo < 0x100)
    → let f = give_frame page (record { hi = hi; lo = lo }) in
      IsFrames (mm_page_free page s) f.hi f.lo
unfolding mm_page_free give_frame
mm_page_free-IsFrames page s hi lo v room_hi room_lo =
    let top_hi = Holds-ptr s.word hi_base s.hi_stack hi v.hi_holds in
    let top_lo = Holds-ptr s.word lo_base s.lo_stack lo v.lo_holds in
    let wrap_hi : u32 (s.hi_stack + 4) ≡ s.hi_stack + 4 = omega arith in
    let wrap_lo : u32 (s.lo_stack + 4) ≡ s.lo_stack + 4 = omega arith in
    elim (Bool-cases (ltb page 0x100000)) [
      | inl low ↦
          rw (low, wrap_lo)
            (record {
              hi_holds =
                  Holds-update s.word hi_base s.hi_stack hi s.lo_stack page (λ k l e. omega arith)
                    v.hi_holds;
              lo_holds = Holds-push s.word lo_base s.lo_stack lo page v.lo_holds;
              hi_room = v.hi_room;
              lo_room = omega (arith, room_lo (ground arith));
            })
      | inr high ↦
          rw (high, wrap_hi)
            (record {
              hi_holds = Holds-push s.word hi_base s.hi_stack hi page v.hi_holds;
              lo_holds =
                  Holds-update s.word lo_base s.lo_stack lo s.hi_stack page
                    (λ k l e. omega (arith, room_hi (ground arith))) v.lo_holds;
              hi_room = omega (arith, room_hi (ground arith));
              lo_room = v.lo_room;
            })
    ]
