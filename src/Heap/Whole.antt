-- ===== src/Heap/Whole.antt =====
-- How `kalloc_page` of src/kernel/kalloc.cpp takes a whole page out of a block of the list.
use klos.Base.{
  ℕ, suc, ◌+◌, ◌-◌, ◌*◌, ◌/◌, ◌%◌, ◌≤◌, ◌<◌, ◌^◌, ◌≡◌, refl, ◌≢◌, ◌⊎◌, inr, ◌||◌, List, [], ◌∷◌,
  arith, length, u32, update, ◌∈◌,
}
use klos.Heap.{Blocks, set_next, set_size}
use klos.Heap.Ring.{Up, within, covered, Apart, Up-move, Up-end, covered-frame}
use klos.Heap.Take.{before, Apart-above, Apart-frame}
use klos.Heap.Pages.{aligned_address, overhead, room, take_page}
use klos.Heap.Aligned.{aligned_inside, room_lt}

-- Every block starts at a multiple of eight.
abbrev pub AllAligned : List ℕ → Type 0
AllAligned [] = Unit {0}
AllAligned (y ∷ ys) = (y % 8 ≡ 0) × AllAligned ys

-- The block `b` has a whole page, and what is left of it is a block before the page, a block behind it,
-- or both: not only a block before it.
pub record HasPage (b : ℕ) (h : Blocks) : Type 0 where
  pub big : 0x1000 ≤ room b h
  pub clean : (overhead b ≡ 0) ⊎ (0x1000 < room b h)

-- The outcome of taking a page from the block `b`, seen from the block `q` below it.
pub record PageTaken (base limit b q : ℕ) (h : Blocks) (ys : List ℕ) : Type 0 where
  pub zs : List ℕ
  pub k : Blocks
  pub run : take_page (before b q ys) b h ≡ (aligned_address b, k)
  pub up : Up k base limit q zs
  pub cover : (a : ℕ) → covered h ys a ≡ (covered k zs a || within (aligned_address b) 0x200 a)
  pub apart : Apart k (aligned_address b) 0x200 zs
  pub aligned : AllAligned zs
  pub start : aligned_address b % 0x1000 ≡ 0
  pub above : b ≤ aligned_address b
  pub inside : aligned_address b + 0x1000 ≤ limit
  pub short : length zs ≤ suc (length ys)
  pub kept : k.block_size q ≡ h.block_size q
  pub free : k.free ≡ h.free
  pub still : (a : ℕ) → a ∈ ys → (a ≢ b) ⊎ (0 < overhead b) → a ∈ zs
  pub frame :
      (a : ℕ)
      → a ≢ before b q ys
      → (a < b) ⊎ (b + 8 * h.block_size b ≤ a)
      → (k.next_block a ≡ h.next_block a) × (k.block_size a ≡ h.block_size a)

module _ (base limit b q : ℕ) (h : Blocks) (ys : List ℕ) (fits : limit ≤ 2 ^ 32) (pos : 0 < b)
    (up : Up h base limit q (b ∷ ys)) (eights : AllAligned (b ∷ ys)) (big : 0x1000 ≤ room b h) where
  end : b + 8 * h.block_size b ≤ 2 ^ 32
  end = omega (arith, Up-end h base limit b ys up.3)

  pub bounds :
      (aligned_address b % 0x1000 ≡ 0)
      × (b ≤ aligned_address b)
      × (aligned_address b < b + 0x1000)
      × (aligned_address b + 0x1000 ≤ b + 8 * h.block_size b)
  bounds = aligned_inside b (8 * h.block_size b) end (room_lt b h big)

  inside : aligned_address b + 0x1000 ≤ limit
  inside = omega (arith, bounds, Up-end h base limit b ys up.3)

  pub over : overhead b ≡ aligned_address b - b
  unfolding overhead
  over = omega (arith, bounds, end)

  pub left : room b h ≡ 8 * h.block_size b - overhead b
  unfolding room
  left = ground (arith, over, bounds, end)

  pub whole_units : overhead b % 8 ≡ 0
  whole_units = omega (arith, over, bounds, eights.0)

  -- The page starts the block and ends before it.
  pub page_first : overhead b ≡ 0 → 0x1000 < room b h → PageTaken base limit b q h (b ∷ ys)
  unfolding take_page before update
  page_first none more =
      let start : aligned_address b ≡ b = omega (arith, over, bounds) in
      let m = (room b h - 0x1000) / 8 in
      let r = u32 (b + 0x1000) in
      let k = set_next q r (set_next r (h.next_block b) (set_size r m h)) in
      let place : r ≡ b + 0x1000 = omega (arith, end, bounds, left) in
      let rest : 8 * m + 0x1000 ≡ 8 * h.block_size b = omega (arith, left) in
      let size : k.block_size r ≡ m = ground arith in
      record {
        zs = r ∷ ys;
        k = k;
        run = rw start (ground (arith, none, up.0));
        up = (
          ground arith,
          ground arith,
          ground arith,
          Up-move h k base limit b r ys up.3 (ground arith) (omega arith) (λ a l. ground arith)
              (λ a l. ground arith),
        );
        cover = λ a. ground (arith, covered-frame h k base limit b ys a up.3 (λ c l. ground arith));
        apart = (
          inr (omega arith),
          Apart-frame h k base limit b (aligned_address b) 0x200 ys up.3 (λ c l. ground arith)
              (Apart-above h base limit b (aligned_address b) 0x200 ys up.3
                (omega (arith, bounds))),
        );
        aligned = (omega arith, eights.1);
        start = bounds.0;
        above = bounds.1;
        inside = inside;
        short = omega arith;
        kept = ground arith;
        free = refl;
        still = λ a i d. ground arith;
        frame = λ a na side. ground arith;
      }

  -- The page is the block.
  pub page_only : overhead b ≡ 0 → room b h ≡ 0x1000 → PageTaken base limit b q h (b ∷ ys)
  unfolding take_page before update
  page_only none exact =
      let start : aligned_address b ≡ b = omega (arith, over, bounds) in
      let k = set_next q (h.next_block b) h in
      let whole : 8 * h.block_size b ≡ 0x1000 = omega (arith, left) in
      record {
        zs = ys;
        k = k;
        run = rw start (ground (arith, none, up.0));
        up =
            Up-move h k base limit b q ys up.3 (ground arith) (omega arith) (λ a l. ground arith)
              (λ a l. refl);
        cover = λ a. ground (arith, covered-frame h k base limit b ys a up.3 (λ c l. refl));
        apart =
            Apart-frame h k base limit b (aligned_address b) 0x200 ys up.3 (λ c l. refl)
              (Apart-above h base limit b (aligned_address b) 0x200 ys up.3
                (omega (arith, bounds)));
        aligned = eights.1;
        start = bounds.0;
        above = bounds.1;
        inside = inside;
        short = omega arith;
        kept = refl;
        free = refl;
        still = λ a i d. ground arith;
        frame = λ a na side. ground arith;
      }

  -- The page has a block on either side.
  pub page_inside : 0 < overhead b → 0x1000 < room b h → PageTaken base limit b q h (b ∷ ys)
  unfolding take_page before update
  page_inside some more =
      let page = aligned_address b in
      let m = (room b h - 0x1000) / 8 in
      let low = overhead b / 8 in
      let r = u32 (page + 0x1000) in
      let k = set_next b r (set_next r (h.next_block b) (set_size r m (set_size b low h))) in
      let place : r ≡ page + 0x1000 = omega (arith, end, bounds, left, over) in
      let lower : b + 8 * low ≡ page = omega (arith, over, bounds, whole_units) in
      let upper : r + 8 * m ≡ b + 8 * h.block_size b =
        omega (arith, left, over, bounds, whole_units, place) in
      let low_pos : 0 < low = omega (arith, whole_units) in
      let size : k.block_size r ≡ m = ground arith in
      let m_pos : 0 < m = omega (arith, left, whole_units) in
      record {
        zs = b ∷ r ∷ ys;
        k = k;
        run = ground arith;
        up = (
          ground arith,
          ground arith,
          ground arith,
          (
            ground arith,
            ground arith,
            ground arith,
            Up-move h k base limit b r ys up.3 (ground arith) (omega arith) (λ a l. ground arith)
                (λ a l. ground arith),
          ),
        );
        cover = λ a. ground (arith, covered-frame h k base limit b ys a up.3 (λ c l. ground arith));
        apart = (
          ground arith,
          (
            inr (omega arith),
            Apart-frame h k base limit b page 0x200 ys up.3 (λ c l. ground arith)
                (Apart-above h base limit b page 0x200 ys up.3 (omega (arith, bounds))),
          ),
        );
        aligned = (eights.0, (omega (arith, bounds), eights.1));
        start = bounds.0;
        above = bounds.1;
        inside = inside;
        short = omega arith;
        kept = ground arith;
        free = refl;
        still = λ a i d. ground arith;
        frame = λ a na side. ground arith;
      }
