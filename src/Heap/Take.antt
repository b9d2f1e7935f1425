-- ===== src/Heap/Take.antt =====
-- How `kalloc` takes a block, or the upper end of one, out of the list.
use native.Mathlib.Decide.{dec_lt}
use native.Mathlib.Nat.{le_refl}
use klos.Base.{
  ℕ, ◌+◌, ◌-◌, ◌*◌, ◌≤◌, ◌<◌, ◌^◌, ◌≡◌, refl, ◌≢◌, ◌∙◌, inl, inr, ◌||◌, List, [], ◌∷◌, arith,
  length, ◌==◌, if◌then◌else◌, Bool-cases, update, ◌∈◌,
}
use klos.Heap.{Blocks, advance, set_next, set_size, take_block}
use klos.Heap.Ring.{Up, within, covered, Apart, Up-move, Up-end, Up-past, covered-frame}

-- The block before `b`, among `q` and the blocks above it.
unfoldable pub before : ℕ → ℕ → List ℕ → ℕ
before b q [] = q
before b q (y ∷ ys) = if y == b then q else before b y ys

-- The outcome of taking `n` units from the block `b`, seen from the block `q` below it.
pub record Taken (base limit n b q : ℕ) (h : Blocks) (ys : List ℕ) : Type 0 where
  pub zs : List ℕ
  pub ptr : ℕ
  pub k : Blocks
  pub run : take_block (before b q ys) b n h ≡ (ptr, k)
  pub up : Up k base limit q zs
  pub cover : (a : ℕ) → covered h ys a ≡ (covered k zs a || within ptr n a)
  pub apart : Apart k ptr n zs
  pub short : length zs ≤ length ys
  pub above : b ≤ ptr
  pub inside : ptr + 8 * n ≤ limit
  pub sized : k.block_size ptr ≡ n
  pub kept : k.block_size q ≡ h.block_size q
  pub rover : k.free ∈ (q ∷ zs)
  pub frame :
      (a : ℕ)
      → a ≢ before b q ys
      → a ≢ b
      → a ≢ ptr
      → (k.next_block a ≡ h.next_block a) × (k.block_size a ≡ h.block_size a)

-- Blocks above the end of a block are clear of it.
pub Apart-above :
    (h : Blocks) (base limit y b n : ℕ) (ys : List ℕ)
    → Up h base limit y ys
    → b + 8 * n ≤ y + 8 * h.block_size y
    → Apart h b n ys
Apart-above h base limit y b n [] up e = tt
Apart-above h base limit y b n (z ∷ zs) up e =
    (inr (omega arith), Apart-above h base limit z b n zs up.3 (omega arith))

pub Apart-frame :
    (h g : Blocks) (base limit y b n : ℕ) (ys : List ℕ)
    → Up h base limit y ys
    → ((c : ℕ) → y + 8 * h.block_size y ≤ c → g.block_size c ≡ h.block_size c)
    → Apart h b n ys
    → Apart g b n ys
Apart-frame h g base limit y b n [] up sizes out = tt
Apart-frame h g base limit y b n (z ∷ zs) up sizes out = (
  rw (sizes z (omega arith)) out.0,
  Apart-frame h g base limit z b n zs up.3 (λ c l. sizes c (omega arith)) out.1,
)

module _ (base limit n b q : ℕ) (h : Blocks) (ys : List ℕ) (fits : limit ≤ 2 ^ 32)
    (some_units : 0 < n) (up : Up h base limit q (b ∷ ys)) where
  take_whole : h.block_size b ≡ n → Taken base limit n b q h (b ∷ ys)
  unfolding take_block before update
  take_whole e =
      let k = record (set_next q (h.next_block b) h) { free = q } in
      let end = Up-end h base limit b ys up.3 in
      record {
        zs = ys;
        ptr = b;
        k = k;
        run = ground arith;
        up =
            Up-move h k base limit b q ys up.3 (ground arith) (omega arith) (λ a l. ground arith)
              (λ a l. refl);
        cover = λ a. ground (arith, covered-frame h k base limit b ys a up.3 (λ c l. refl));
        apart =
            Apart-frame h k base limit b b n ys up.3 (λ c l. refl)
              (Apart-above h base limit b b n ys up.3 (omega arith));
        short = omega arith;
        above = le_refl _;
        inside = omega arith;
        sized = e;
        kept = refl;
        rover = ground arith;
        frame = λ a na nb np. ground arith;
      }

  take_part : n < h.block_size b → Taken base limit n b q h (b ∷ ys)
  unfolding take_block before update
  take_part lt =
      let m = h.block_size b - n in
      let ptr = advance b m in
      let k = record (set_size ptr n (set_size b m h)) { free = q } in
      let end = Up-end h base limit b ys up.3 in
      let place : ptr ≡ b + 8 * m = omega arith in
      record {
        zs = b ∷ ys;
        ptr = ptr;
        k = k;
        run = ground arith;
        up = (
          up.0,
          ground arith,
          ground arith,
          Up-move h k base limit b b ys up.3 refl (ground arith) (λ a l. refl)
              (λ a l. ground arith),
        );
        cover = λ a. ground (arith, covered-frame h k base limit b ys a up.3 (λ c l. ground arith));
        apart = (
          ground arith,
          Apart-frame h k base limit b ptr n ys up.3 (λ c l. ground arith)
              (Apart-above h base limit b ptr n ys up.3 (omega arith)),
        );
        short = le_refl _;
        above = omega arith;
        inside = omega arith;
        sized = ground arith;
        kept = ground arith;
        rover = ground arith;
        frame = λ a na nb np. ground arith;
      }

pub before-mem : (b q : ℕ) (ys : List ℕ) → before b q ys ∈ (q ∷ ys)
unfolding before
before-mem b q [] = ground arith
before-mem b q (y ∷ ys) = ground (arith, before-mem b y ys)

-- Any block of the list that is large enough can be taken.
pub take_at :
    (base limit n b q : ℕ) (h : Blocks) (ys : List ℕ)
    → limit ≤ 2 ^ 32
    → 0 < n
    → Up h base limit q ys
    → b ∈ ys
    → n ≤ h.block_size b
    → Taken base limit n b q h ys
unfolding before
take_at base limit n b q h [] fits some up m le = cc
take_at base limit n b q h (y ∷ ys) fits some up m le = elim (Bool-cases (y == b)) [
  | inl here ↦
      let e : y ≡ b = ground arith in
      let up' : Up h base limit q (b ∷ ys) = rw e at up in
      rw e (elim (dec_lt n (h.block_size b)) [
        | yes l ↦ take_part base limit n b q h ys fits some up' l
        | no g ↦ take_whole base limit n b q h ys fits some up' (omega arith)
      ])
  | inr on ↦
      let m' : b ∈ ys = ground arith in
      let r = take_at base limit n b y h ys fits some up.3 m' le in
      let past = Up-past h base limit y b ys up.3 m' in
      let low = Up-past h base limit q (before b y ys) (y ∷ ys) up (before-mem b y ys) in
      let same =
        r.frame q (λ e. absurd (omega arith)) (λ e. absurd (omega arith))
          (λ e. absurd (omega (arith, r.above))) in
      record {
        zs = y ∷ r.zs;
        ptr = r.ptr;
        k = r.k;
        run = rw on r.run;
        up = (same.0 ∙ up.0, omega (arith, same.1), omega (arith, r.kept), r.up);
        cover = λ a. ground (arith, r.cover a, r.kept);
        apart = (inl (omega (arith, r.kept, r.above)), r.apart);
        short = omega (arith, r.short);
        above = r.above;
        inside = r.inside;
        sized = r.sized;
        kept = same.1;
        rover = ground (arith, r.rover);
        frame = λ a na nb np. r.frame a (λ e. na (rw on e)) nb np;
      }
]
