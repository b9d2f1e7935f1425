-- ===== src/Heap/Grow.antt =====
-- `kbrk`, and `kalloc` when no block is large enough and no page is left.
use klos.Base.{
  ℕ, ◌+◌, ◌*◌, ◌≤◌, ◌<◌, ◌≡◌, refl, ◌≢◌, ◌∙◌, inl, true, ◌||◌, List, [], ◌∷◌, arith, length,
  ==_false, u32, update,
}
use klos.Base.Run.{ok}
use klos.Heap.{Blocks, Heap, PageSource, advance, set_next, set_size, heap_end, kbrk, kfree}
use klos.Heap.Ring.{Up, within, covered, Apart, IsHeap, Up-end}
use klos.Heap.Free.{IsAllocated, kfree-IsHeap}

-- The list of a heap lives below its end, so that a longer heap whose new part is written holds it.
Up-extend :
    (h g : Blocks) (base limit longer p : ℕ) (ys : List ℕ)
    → Up h base limit p ys
    → p < limit
    → limit ≤ longer
    → ((a : ℕ) → a < limit → g.next_block a ≡ h.next_block a)
    → ((a : ℕ) → a < limit → g.block_size a ≡ h.block_size a)
    → Up g base longer p ys
Up-extend h g base limit longer p [] up low le nexts sizes =
    (nexts p low ∙ up.0, omega (arith, sizes p low))
Up-extend h g base limit longer p (y ∷ ys) up low le nexts sizes =
    let low_y : y < limit = omega (arith, Up-end h base limit y ys up.3) in
    (
      nexts p low ∙ up.0,
      omega (arith, sizes p low),
      omega (arith, sizes y low_y),
      Up-extend h g base limit longer y ys up.3 low_y le nexts sizes,
    )

covered-extend :
    (h g : Blocks) (base limit p a : ℕ) (ys : List ℕ)
    → Up h base limit p ys
    → ((b : ℕ) → b < limit → g.block_size b ≡ h.block_size b)
    → covered g ys a ≡ covered h ys a
covered-extend h g base limit p a [] up sizes = refl
covered-extend h g base limit p a (y ∷ ys) up sizes = rw (
  sizes y (omega (arith, Up-end h base limit y ys up.3)),
  covered-extend h g base limit y a ys up.3 sizes,
)

-- A block at the end of the heap is clear of the list.
Apart-extend :
    (h g : Blocks) (base limit p n : ℕ) (ys : List ℕ)
    → Up h base limit p ys
    → ((b : ℕ) → b < limit → g.block_size b ≡ h.block_size b)
    → Apart g limit n ys
Apart-extend h g base limit p n [] up sizes = tt
Apart-extend h g base limit p n (y ∷ ys) up sizes =
    let end = Up-end h base limit y ys up.3 in
    (inl (omega (arith, sizes y (omega arith))), Apart-extend h g base limit y n ys up.3 sizes)

-- The heap after `kernel_heap_alloc` pages.
abbrev pub end_of : ℕ → ℕ
end_of alloc = 0xD0000000 + alloc * 0x1000

module _ {S : Type 0} (source : PageSource S) (HasTable : ℕ → S → Type 0) where
  open source use {mm_page_allocate, pg_map}

  -- Where the kernel has a page table for the address, `pg_map` only writes a word of that table, and does
  -- not use the heap.
  pub record MapsInTable : Type 0 where
    pub blocks :
        (virt physical supervisor : ℕ) (t : Heap S)
        → HasTable virt t.pages
        → (pg_map virt physical supervisor t).blocks ≡ t.blocks
    pub alloc :
        (virt physical supervisor : ℕ) (t : Heap S)
        → HasTable virt t.pages
        → (pg_map virt physical supervisor t).alloc ≡ t.alloc

  module _ (s : Heap S) where
    -- The state when the page has been mapped.
    abbrev pub mapped : Heap S
    mapped =
        let (page, pages) = mm_page_allocate s.pages in
        pg_map (end_of s.alloc) page 1 (record s { pages = pages })

    kbrk-run :
        (rounds : ℕ) (k : Blocks)
        → MapsInTable
        → HasTable (end_of s.alloc) (mm_page_allocate s.pages).1
        → s.alloc < 0x30000
        → (mm_page_allocate s.pages).0 ≢ 0
        → kfree rounds
            (advance (end_of s.alloc) 1)
            (set_next (end_of s.alloc) 0 (set_size (end_of s.alloc) 0x200 s.blocks))
          ≡ ok k
        → kbrk source rounds s ≡ ok (true, record mapped { blocks = k; alloc = s.alloc + 1 })
    unfolding kbrk
    kbrk-run rounds k maps table room page run =
        let (p, pages) = mm_page_allocate s.pages in
        let place : heap_end source s ≡ end_of s.alloc = omega arith in
        let count : u32 (s.alloc + 1) ≡ s.alloc + 1 = omega arith in
        let same = maps.blocks (end_of s.alloc) p 1 (record s { pages = pages }) table in
        let still = maps.alloc (end_of s.alloc) p 1 (record s { pages = pages }) table in
        rw (==_false _ 0 page, place, still, same, place, count, run)

  module _ {base : ℕ} {s : Heap S} {ys : List ℕ} where
    -- On a well-formed heap with address space left and a page to be had, where the kernel has a page table
    -- for the old end of the heap, so that `pg_map` does not use the heap, and with enough fuel, `kbrk`
    -- adds the page to the free bytes, and the other parts of the kernel are as `pg_map` of that page at the
    -- old end of the heap leaves them.
    pub kbrk-IsHeap :
        (rounds : ℕ)
        → MapsInTable
        → HasTable (end_of s.alloc) (mm_page_allocate s.pages).1
        → IsHeap base (end_of s.alloc) s.blocks ys
        → s.alloc < 0x30000
        → 2 * length ys + 2 < rounds
        → (mm_page_allocate s.pages).0 ≢ 0
        → (k : Blocks) × (zs : List ℕ) × (kbrk source rounds s
            ≡ ok (true, record { blocks = k; alloc = s.alloc + 1; pages = (mapped s).pages }))
          × IsHeap base (end_of (s.alloc + 1)) k zs
          × ((a : ℕ) → covered k zs a ≡ (covered s.blocks ys a || within (end_of s.alloc) 0x200 a))
    unfolding update
    kbrk-IsHeap rounds maps table v room enough page =
        let e = end_of s.alloc in
        let h = s.blocks in
        let g = set_next e 0 (set_size e 0x200 h) in
        let nexts : (a : ℕ) → a < e → g.next_block a ≡ h.next_block a = λ a l. ground arith in
        let sizes : (a : ℕ) → a < e → g.block_size a ≡ h.block_size a = λ a l. ground arith in
        let full : g.block_size e ≡ 0x200 = ground arith in
        let w : IsHeap base (end_of (s.alloc + 1)) g ys = record {
          base_pos = v.base_pos;
          base_below = v.base_below;
          limit_fits = omega arith;
          base_empty = sizes base (omega arith) ∙ v.base_empty;
          ring =
              Up-extend h g base e (end_of (s.alloc + 1)) base ys v.ring (omega arith) (omega arith)
                nexts sizes;
          rover = v.rover;
        } in
        let b : IsAllocated base (end_of (s.alloc + 1)) e g ys = record {
          above = omega arith;
          full = omega arith;
          inside = omega arith;
          apart = Apart-extend h g base e base (g.block_size e) ys v.ring sizes;
        } in
        let (k, zs, run, heap, cover, _) = kfree-IsHeap rounds e w b enough in
        (
          k,
          zs,
          kbrk-run s rounds k maps table room page run,
          heap,
          λ a. ground (arith, cover a, full, covered-extend h g base e base a ys v.ring sizes),
        )
