-- ===== src/Heap/Aligned.antt =====
-- Where the page lies that `kalloc_page` cuts out of a block.
use klos.Base.{
  ℕ, ◌+◌, ◌*◌, ◌/◌, ◌%◌, ◌^◌, ◌<◌, ◌≤◌, ◌≡◌, refl, ltb, u32, inl, inr, Bool-cases, arith,
}
use klos.Heap.{Blocks}
use klos.Heap.Pages.{aligned_address, overhead, room, take_page}

-- The arithmetic of a block of n bytes at p.
pub aligned_inside :
    (p n : ℕ)
    → p + n ≤ 2 ^ 32
    → overhead p + 0x1000 ≤ n
    → (aligned_address p % 0x1000 ≡ 0)
      × (p ≤ aligned_address p)
      × (aligned_address p < p + 0x1000)
      × (aligned_address p + 0x1000 ≤ p + n)
unfolding overhead aligned_address
aligned_inside p n fits big = elim (Bool-cases (ltb (p / 0x1000 * 0x1000) p)) [
  | inl e ↦
      let next : aligned_address p ≡ u32 (p / 0x1000 * 0x1000 + 0x1000) = rw e refl in
      let low : p / 0x1000 * 0x1000 < p = ground arith in
      (omega arith, omega arith, omega arith, omega arith)
  | inr e ↦
      let here : aligned_address p ≡ p / 0x1000 * 0x1000 = rw e refl in
      let low : p ≤ p / 0x1000 * 0x1000 = ground arith in
      (omega arith, omega arith, omega arith, omega arith)
]

pub room_lt : (p : ℕ) (h : Blocks) → 0x1000 ≤ room p h → overhead p + 0x1000 ≤ 8 * h.block_size p
unfolding room
room_lt p h big = ground arith

-- In a block that ends by 2^32 and has room for a page, `kalloc_page` takes the first whole page:
-- it starts on a page boundary less than a page into the block, and it ends inside the block.
take_page-inside :
    (prevp p : ℕ) (h : Blocks)
    → p + 8 * h.block_size p ≤ 2 ^ 32
    → 0x1000 ≤ room p h
    → ((take_page prevp p h).0 % 0x1000 ≡ 0)
      × (p ≤ (take_page prevp p h).0)
      × ((take_page prevp p h).0 < p + 0x1000)
      × ((take_page prevp p h).0 + 0x1000 ≤ p + 8 * h.block_size p)
unfolding take_page room overhead aligned_address
take_page-inside prevp p h fits big = aligned_inside p (8 * h.block_size p) fits (room_lt p h big)
