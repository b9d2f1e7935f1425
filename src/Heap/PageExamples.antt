-- ===== src/Heap/PageExamples.antt =====
-- Heaps with whole pages, and the theorems on `kalloc_page` and `kfree_page` at them.
use klos.Base.{
  ℕ, suc, ◌+◌, ◌%◌, ◌≤◌, ◌<◌, ◌≡◌, refl, ◌||◌, List, [], ◌∷◌, arith, length, inr, update,
}
use klos.Base.Run.{ok, ◌>>=◌}
use klos.Heap.{Blocks, Heap, PageSource, init_free}
use klos.Heap.Ring.{Up, within, covered, Apart, IsHeap}
use klos.Heap.Pages.{aligned_address, overhead, room, take_page, kfree_page, kalloc_page}
use klos.Heap.PageAlloc.{PagesFit, any_page, kalloc_page-IsHeap}
use klos.Heap.PageFree.{kfree_page-kalloc_page}
use klos.Heap.Lost.{take_page-drops}

abbrev base : ℕ
base = 0xC0108000

-- No page is asked for.
abbrev none : PageSource ℕ
none = record { mm_page_allocate = λ n. (0, n); pg_map = λ virt physical supervisor n. n }

-- One free block of 0x400 units from 0xD0000800 on, which holds the page at 0xD0001000.
abbrev paged : Heap ℕ
paged = record {
  blocks = record {
    next_block = update (update (λ _. 0) base 0xD0000800) 0xD0000800 base;
    block_size = update (λ _. 0) 0xD0000800 0x400;
    free = base;
  };
  alloc = 4;
  pages = 0;
}

abbrev list : List ℕ
list = 0xD0000800 ∷ []

paged-IsHeap : IsHeap base 0xD0004000 paged.blocks list
unfolding update
paged-IsHeap = record {
  base_pos = omega arith;
  base_below = omega arith;
  limit_fits = omega arith;
  base_empty = refl;
  ring = (refl, omega arith, omega arith, (refl, omega arith));
  rover = refl;
}

paged-PagesFit : PagesFit paged.blocks list
unfolding update room overhead aligned_address
paged-PagesFit = record {
  aligned = (refl, tt);
  clean = λ b m le. let e : b ≡ 0xD0000800 = ground arith in rw e (inr (omega arith));
  rover = λ le. absurd (omega arith);
}

kalloc_page-IsHeap_example :
    (page : ℕ) × (k : Blocks) × (zs : List ℕ) × (kalloc_page none base 8 paged
      ≡ ok (page, record paged { blocks = k }))
    × IsHeap base 0xD0004000 k zs
    × (page % 0x1000 ≡ 0)
    × (base < page)
    × (page + 0x1000 ≤ 0xD0004000)
    × (length zs ≤ suc (length list))
    × Apart k page 0x200 zs
    × ((a : ℕ) → covered paged.blocks list a ≡ (covered k zs a || within page 0x200 a))
unfolding any_page room overhead aligned_address update
kalloc_page-IsHeap_example =
    kalloc_page-IsHeap none {s = paged} 8 paged-IsHeap paged-PagesFit refl (omega arith)

kfree_page-kalloc_page_example :
    (page : ℕ) × (t : Heap ℕ) × (k : Blocks) × (zs : List ℕ) × (kalloc_page none base 8 paged
      ≡ ok (page, t))
    × (kfree_page 8 page t.blocks ≡ ok k)
    × IsHeap base 0xD0004000 k zs
    × ((a : ℕ) → covered k zs a ≡ covered paged.blocks list a)
unfolding any_page room overhead aligned_address update
kfree_page-kalloc_page_example =
    kfree_page-kalloc_page none paged 8 8 paged-IsHeap paged-PagesFit refl (omega arith)
      (omega arith)

-- A block from 0xD0000800 on that ends with the page at 0xD0001000, and one behind it.
abbrev tight : Blocks
tight = record {
  next_block =
      update (update (update (λ _. 0) base 0xD0000800) 0xD0000800 0xD0002800) 0xD0002800 base;
  block_size = update (update (λ _. 0) 0xD0000800 0x300) 0xD0002800 0x100;
  free = base;
}

take_page-drops_example :
    (k : Blocks) × (take_page base 0xD0000800 tight ≡ (aligned_address 0xD0000800, k))
    × Up k base 0xD0003000 base (0xD0000800 ∷ [])
    × ((a : ℕ)
        → covered tight (0xD0000800 ∷ 0xD0002800 ∷ []) a ≡ (
            covered k (0xD0000800 ∷ []) a
            || within (aligned_address 0xD0000800) 0x200 a
            || within 0xD0002800 (tight.block_size 0xD0002800) a))
unfolding room overhead aligned_address update
take_page-drops_example =
    take_page-drops base 0xD0003000 0xD0000800 base 0xD0002800 tight [] (omega arith)
      (refl, omega arith, omega arith, (refl, omega arith, omega arith, (refl, omega arith)))
      (refl, (refl, tt)) (omega arith) refl

-- A free block that is a page, with `kernel_heap_free` at it: the page is given out, and
-- `kernel_heap_free` still stands at it.
abbrev whole : Heap ℕ
whole = record {
  blocks = record {
    next_block = update (update (λ _. 0) base 0xD0000000) 0xD0000000 base;
    block_size = update (λ _. 0) 0xD0000000 0x200;
    free = 0xD0000000;
  };
  alloc = 1;
  pages = 0;
}

page_and_free : ℕ × Heap ℕ → ℕ × ℕ
page_and_free (page, s) = (page, s.blocks.free)

given_and_free :
    (do r ← kalloc_page none base 8 whole; ok (page_and_free r)) ≡ ok (0xD0000000, 0xD0000000)
unfolding kalloc_page init_free page_and_free room overhead aligned_address update
given_and_free = refl
