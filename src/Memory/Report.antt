-- ===== src/Memory/Report.antt =====
-- What `mm_get_pages_free` reports.
use klos.Base.{ℕ, ◌/◌, ◌≡◌, List, arith, length}
use klos.Memory.{FrameStacks, hi_base, lo_base, mm_get_pages_free}
use klos.Memory.Stack.{Holds-ptr}
use klos.Memory.Refinement.{IsFrames}

-- `mm_get_pages_free` reports a quarter of the low pages and a quarter of the high pages that are
-- free, rounded down.
mm_get_pages_free-quarter :
    (s : FrameStacks) (hi lo : List ℕ)
    → IsFrames s hi lo
    → mm_get_pages_free s ≡ (length lo / 4, length hi / 4)
unfolding mm_get_pages_free
mm_get_pages_free-quarter s hi lo v = ground (
  arith,
  Holds-ptr s.word hi_base s.hi_stack hi v.hi_holds,
  Holds-ptr s.word lo_base s.lo_stack lo v.lo_holds,
)
