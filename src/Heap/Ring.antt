-- ===== src/Heap/Ring.antt =====
-- What a well-formed list of free blocks looks like in memory, and which bytes it covers.
use klos.Base.{
  ℕ, ◌+◌, ◌*◌, ◌≤◌, ◌<◌, ◌≡◌, refl, ◌∙◌, ◌⊎◌, Bool, false, ◌&&◌, ◌||◌, List, [], ◌∷◌, arith, ltb,
  leb, ◌∈◌,
}
use klos.Heap.{Blocks}

-- From the block `p` the list leads upwards through the blocks `ys`, with a gap before each, and
-- back to `base`; no block reaches beyond `limit`.
abbrev pub Up : Blocks → ℕ → ℕ → ℕ → List ℕ → Type 0
Up h base limit p [] = (h.next_block p ≡ base) × (p + 8 * h.block_size p ≤ limit)
Up h base limit p (y ∷ ys) =
    (h.next_block p ≡ y)
    × (p + 8 * h.block_size p < y)
    × (0 < h.block_size y)
    × Up h base limit y ys

-- Whether the byte `a` lies in the block at `p` of `n` units, and in a free block.
abbrev pub within : ℕ → ℕ → ℕ → Bool
within p n a = leb p a && ltb a (p + 8 * n)

abbrev pub covered : Blocks → List ℕ → ℕ → Bool
covered h [] a = false
covered h (y ∷ ys) a = within y (h.block_size y) a || covered h ys a

-- The block at `b` of `n` units overlaps none of the blocks.
abbrev pub Apart : Blocks → ℕ → ℕ → List ℕ → Type 0
Apart h b n [] = Unit
Apart h b n (y ∷ ys) = ((y + 8 * h.block_size y ≤ b) ⊎ (b + 8 * n ≤ y)) × Apart h b n ys

-- A heap whose free list runs from the static header `base`, which is empty and lies below the
-- heap, through the blocks `ys`; the pointer to the list may stand at any of them.
pub record IsHeap (base limit : ℕ) (h : Blocks) (ys : List ℕ) : Type 0 where
  pub base_pos : 0 < base
  pub base_below : base < 0xD0000000
  pub limit_fits : limit ≤ 0x100000000
  pub base_empty : h.block_size base ≡ 0
  pub ring : Up h base limit base ys
  pub rover : h.free ∈ (base ∷ ys)

-- A list that leaves `y` for `ys` also leaves `p` for them, if `p` has the link of `y` and ends no
-- later, and nothing from the end of `y` on has changed.
pub Up-move :
    (h g : Blocks) (base limit y p : ℕ) (ys : List ℕ)
    → Up h base limit y ys
    → g.next_block p ≡ h.next_block y
    → p + 8 * g.block_size p ≤ y + 8 * h.block_size y
    → ((a : ℕ) → y + 8 * h.block_size y ≤ a → g.next_block a ≡ h.next_block a)
    → ((a : ℕ) → y + 8 * h.block_size y ≤ a → g.block_size a ≡ h.block_size a)
    → Up g base limit p ys
Up-move h g base limit y p [] up link end nexts sizes = (link ∙ up.0, omega arith)
Up-move h g base limit y p (z ∷ zs) up link end nexts sizes =
    let above : y + 8 * h.block_size y ≤ z = omega arith in
    (
      link ∙ up.0,
      omega arith,
      omega (arith, sizes z above),
      Up-move h g base limit z z zs up.3 (nexts z above) (omega (arith, sizes z above))
          (λ a l. nexts a (omega arith)) (λ a l. sizes a (omega arith)),
    )

pub covered-frame :
    (h g : Blocks) (base limit y : ℕ) (ys : List ℕ) (a : ℕ)
    → Up h base limit y ys
    → ((b : ℕ) → y + 8 * h.block_size y ≤ b → g.block_size b ≡ h.block_size b)
    → covered g ys a ≡ covered h ys a
covered-frame h g base limit y [] a up sizes = refl
covered-frame h g base limit y (z ∷ zs) a up sizes =
    rw (
      sizes z (omega arith),
      covered-frame h g base limit z zs a up.3 (λ b l. sizes b (omega arith)),
    )

pub Up-end :
    (h : Blocks) (base limit y : ℕ) (ys : List ℕ)
    → Up h base limit y ys
    → y + 8 * h.block_size y ≤ limit
Up-end h base limit y [] up = up.1
Up-end h base limit y (z ∷ zs) up = omega (arith, Up-end h base limit z zs up.3)

-- The blocks behind `p` lie above it.
pub Up-above :
    (h : Blocks) (base limit p a : ℕ) (ys : List ℕ) → Up h base limit p ys → a ∈ ys → p < a
Up-above h base limit p a [] up m = cc
Up-above h base limit p a (y ∷ ys) up m = ground (arith, Up-above h base limit y a ys up.3)

-- And above its end.
pub Up-past :
    (h : Blocks) (base limit p a : ℕ) (ys : List ℕ)
    → Up h base limit p ys
    → a ∈ ys
    → p + 8 * h.block_size p < a
Up-past h base limit p a [] up m = cc
Up-past h base limit p a (y ∷ ys) up m = ground (arith, Up-past h base limit y a ys up.3)
