-- ===== src/Heap/Link.antt =====
-- How `kfree` links a block behind a given one, and joins the blocks that touch.
use native.Mathlib.Nat.{le_refl}
use klos.Base.{
  ℕ, ◌+◌, ◌*◌, ◌≤◌, ◌<◌, ◌^◌, ◌≡◌, refl, ◌≢◌, ◌∙◌, inl, inr, ◌||◌, List, [], ◌∷◌, arith, ◌==◌,
  Bool-cases, u32, update, ◌∈◌,
}
use klos.Heap.{Blocks, advance, set_next, set_size, join_next, join_prev, link_free}
use klos.Heap.Ring.{Up, within, covered, Up-move, Up-end, covered-frame}

-- `g` differs from `h` at most in the header at `p`.
pub record OnlyAt (p : ℕ) (h g : Blocks) : Type 0 where
  next : (a : ℕ) → a ≢ p → g.next_block a ≡ h.next_block a
  size : (a : ℕ) → a ≢ p → g.block_size a ≡ h.block_size a

join_next-OnlyAt : (bp p : ℕ) (h : Blocks) → OnlyAt bp h (join_next bp p h)
unfolding join_next update
join_next-OnlyAt bp p h = record { next = λ a ne. ground arith; size = λ a ne. ground arith }

join_prev-OnlyAt : (bp p : ℕ) (h : Blocks) → OnlyAt p h (join_prev bp p h)
unfolding join_prev update
join_prev-OnlyAt bp p h = record { next = λ a ne. ground arith; size = λ a ne. ground arith }

-- The first of the blocks, if there is one, does not begin before `e`.
abbrev pub Behind : ℕ → List ℕ → Type 0
Behind e [] = Unit
Behind e (y ∷ ys) = e ≤ y

-- What stands behind `bp` once its upper neighbour has been joined.
record Joined (base limit bp : ℕ) (h g : Blocks) (ys : List ℕ) : Type 0 where
  zs : List ℕ
  up : Up g base limit bp zs
  cover :
      (a : ℕ)
      → (within bp (g.block_size bp) a || covered g zs a)
        ≡ (within bp (h.block_size bp) a || covered h ys a)
  wider : h.block_size bp ≤ g.block_size bp

module _ (base limit bp p : ℕ) (h : Blocks) (above : base < bp) (pos : 0 < base)
    (fits : limit ≤ 2 ^ 32) (full : 0 < h.block_size bp)
    (inside : bp + 8 * h.block_size bp ≤ limit) where
  abbrev absorbed : ℕ → Blocks
  absorbed next =
      set_next bp (h.next_block next) (set_size bp (u32 (h.block_size bp + h.block_size next)) h)

  join_next-Joined :
      (ys : List ℕ)
      → Up h base limit p ys
      → p < bp
      → Behind (bp + 8 * h.block_size bp) ys
      → Joined base limit bp h (join_next bp p h) ys
  unfolding join_next update
  join_next-Joined [] up lt out = record {
    zs = [];
    up = ground arith;
    cover = ground arith;
    wider = ground arith;
  }
  join_next-Joined (y ∷ ys) up lt out =
      let end = Up-end h base limit y ys up.3 in
      let next_y : h.next_block p ≡ y = up.0 in
      elim (Bool-cases (advance bp (h.block_size bp) == h.next_block p)) [
        | inl touch ↦
            let g = absorbed (h.next_block p) in
            let wide : g.block_size bp ≡ h.block_size bp + h.block_size y = ground arith in
            rw touch (record {
              zs = ys;
              up =
                  Up-move h g base limit y bp ys up.3 (ground arith) (ground arith)
                    (λ a l. ground arith) (λ a l. ground arith);
              cover = λ a.
                  ground (arith, covered-frame h g base limit y ys a up.3 (λ b l. ground arith));
              wider = omega (arith, wide);
            })
        | inr gap ↦
            let g = set_next bp (h.next_block p) h in
            rw gap (record {
              zs = y ∷ ys;
              up = (
                ground arith,
                ground arith,
                up.2,
                Up-move h g base limit y y ys up.3 (ground arith) (le_refl _) (λ a l. ground arith)
                    (λ a l. refl),
              );
              cover =
                  λ a. ground (arith, covered-frame h g base limit p (y ∷ ys) a up (λ b l. refl));
              wider = le_refl _;
            })
      ]

-- What stands behind `p` once `bp` has been linked in or joined.
record Placed (base limit bp p : ℕ) (g k : Blocks) (zs : List ℕ) : Type 0 where
  ws : List ℕ
  up : Up k base limit p ws
  cover :
      (a : ℕ)
      → (within p (k.block_size p) a || covered k ws a)
        ≡ (within p (g.block_size p) a || (within bp (g.block_size bp) a || covered g zs a))
  grows : g.block_size p ≤ k.block_size p
  keeps_empty : g.block_size p ≡ 0 → k.block_size p ≡ 0

module _ (base limit bp p : ℕ) (g : Blocks) (fits : limit ≤ 2 ^ 32)
    (full : 0 < g.block_size bp) where
  abbrev swallowed : Blocks
  swallowed = set_next p (g.next_block bp) (set_size p (u32 (g.block_size p + g.block_size bp)) g)

  join_prev-Placed :
      (zs : List ℕ)
      → Up g base limit bp zs
      → p < bp
      → p + 8 * g.block_size p ≤ bp
      → Placed base limit bp p g (join_prev bp p g) zs
  unfolding join_prev update
  join_prev-Placed zs up lt apart =
      let end = Up-end g base limit bp zs up in
      elim (Bool-cases (advance p (g.block_size p) == bp)) [
        | inl touch ↦
            let k = swallowed in
            let wide : k.block_size p ≡ g.block_size p + g.block_size bp = ground arith in
            rw touch (record {
              ws = zs;
              up =
                  Up-move g k base limit bp p zs up (ground arith) (ground arith)
                    (λ a l. ground arith) (λ a l. ground arith);
              cover = λ a.
                  ground (arith, covered-frame g k base limit bp zs a up (λ b l. ground arith));
              grows = ground arith;
              keeps_empty = λ e. ground arith;
            })
        | inr gap ↦
            let k = set_next p bp g in
            rw gap (record {
              ws = bp ∷ zs;
              up = (
                ground arith,
                ground arith,
                full,
                Up-move g k base limit bp bp zs up (ground arith) (le_refl _) (λ a l. ground arith)
                    (λ a l. refl),
              );
              cover = λ a. ground (arith, covered-frame g k base limit bp zs a up (λ b l. refl));
              grows = le_refl _;
              keeps_empty = λ e. e;
            })
      ]

-- The outcome of `link_free` at the block `p`, seen from the block `q` at or below it.
pub record Linked (base limit bp p q : ℕ) (h k : Blocks) (ys : List ℕ) : Type 0 where
  pub zs : List ℕ
  pub up : Up k base limit q zs
  pub cover :
      (a : ℕ)
      → (within q (k.block_size q) a || covered k zs a)
        ≡ (within q (h.block_size q) a || covered h ys a || within bp (h.block_size bp) a)
  pub grows : h.block_size q ≤ k.block_size q
  pub keeps_empty : h.block_size q ≡ 0 → k.block_size q ≡ 0
  pub listed : p ∈ (q ∷ zs)
  pub known : p ∈ (q ∷ ys)

pub link_free-OnlyAt :
    (bp p a : ℕ) (h : Blocks)
    → a ≢ p
    → a ≢ bp
    → ((link_free bp p h).next_block a ≡ h.next_block a)
      × ((link_free bp p h).block_size a ≡ h.block_size a)
unfolding link_free
link_free-OnlyAt bp p a h np nb =
    let one = join_next-OnlyAt bp p h in
    let two = join_prev-OnlyAt bp p (join_next bp p h) in
    (two.next a np ∙ one.next a nb, two.size a np ∙ one.size a nb)

module _ (base limit bp : ℕ) (h : Blocks) (above : base < bp) (pos : 0 < base)
    (fits : limit ≤ 2 ^ 32) (full : 0 < h.block_size bp)
    (inside : bp + 8 * h.block_size bp ≤ limit) where
  pub link_here :
      (p : ℕ) (ys : List ℕ)
      → Up h base limit p ys
      → p < bp
      → p + 8 * h.block_size p ≤ bp
      → Behind (bp + 8 * h.block_size bp) ys
      → Linked base limit bp p p h (link_free bp p h) ys
  unfolding link_free
  link_here p ys up lt apart behind =
      let g = join_next bp p h in
      let only = join_next-OnlyAt bp p h in
      let j = join_next-Joined base limit bp p h above pos fits full inside ys up lt behind in
      let size_p : g.block_size p ≡ h.block_size p = only.size p (λ e. absurd (omega arith)) in
      let s =
        join_prev-Placed base limit bp p g fits (omega (arith, j.wider)) j.zs j.up lt
          (omega arith) in
      let k = join_prev bp p g in
      let k' = link_free bp p h in
      record {
        zs = s.ws;
        up = Up-move k k' base limit p p s.ws s.up refl (le_refl _) (λ a l. refl) (λ a l. refl);
        cover = λ a. ground (
          arith,
          s.cover a,
          j.cover a,
          covered-frame k k' base limit p s.ws a s.up (λ b l. refl),
        );
        grows = omega arith;
        keeps_empty = λ e. s.keeps_empty (size_p ∙ e);
        listed = ground arith;
        known = ground arith;
      }
