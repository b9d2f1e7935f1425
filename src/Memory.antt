-- ===== src/Memory.antt =====
-- The physical page allocator of src/kernel/memory.cpp. Free pages lie on two stacks in kernel memory,
-- one for pages below 1 MB and one for the rest; a stack pointer is a byte address.
pub mod Stack
pub mod Refinement
pub mod Ownership
pub mod Report
pub mod Setup
mod Examples
use klos.Base.{ℕ, ◌+◌, ◌-◌, ◌/◌, Bool, ltb, ◌==◌, if◌then◌else◌, u32, sub32, update}

abbrev pub hi_base : ℕ
hi_base = 0xC1500000

abbrev pub lo_base : ℕ
lo_base = 0xC1900000

-- The two stack pointers, and the words of the memory that they point into.
pub record FrameStacks : Type 0 where
  pub hi_stack : ℕ
  pub lo_stack : ℕ
  pub word : ℕ → ℕ

unfoldable pub mm_page_allocate_lo : FrameStacks → ℕ × FrameStacks
mm_page_allocate_lo s =
    if s.lo_stack == lo_base
    then (0, s)
    else (s.word (sub32 s.lo_stack 4), record s { lo_stack = sub32 s.lo_stack 4 })

unfoldable pub mm_page_allocate : FrameStacks → ℕ × FrameStacks
unfolding mm_page_allocate_lo
mm_page_allocate s =
    if s.hi_stack == hi_base
    then mm_page_allocate_lo s
    else (s.word (sub32 s.hi_stack 4), record s { hi_stack = sub32 s.hi_stack 4 })

unfoldable pub mm_page_free : ℕ → FrameStacks → FrameStacks
mm_page_free page s =
    if ltb page 0x100000
    then record s { lo_stack = u32 (s.lo_stack + 4); word = update s.word s.lo_stack page }
    else record s { hi_stack = u32 (s.hi_stack + 4); word = update s.word s.hi_stack page }

-- `lo` and `hi`. The difference of two `uint32_t *` counts words, and is then divided by the size of one.
unfoldable pub mm_get_pages_free : FrameStacks → ℕ × ℕ
mm_get_pages_free s = (sub32 s.lo_stack lo_base / 4 / 4, sub32 s.hi_stack hi_base / 4 / 4)
