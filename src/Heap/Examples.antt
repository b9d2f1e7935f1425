-- ===== src/Heap/Examples.antt =====
-- A heap of one page with a block in use, and the theorems at it.
use klos.Base.{
  ℕ, ◌-◌, ◌*◌, ◌≤◌, ◌≡◌, ◌≢◌, refl, ◌||◌, ◌+◌, ◌<◌, ◌==◌, if◌then◌else◌, true, List, [], ◌∷◌, arith,
  length, inl, update, ◌∉◌,
}
use klos.Base.Run.{ok, fault, ◌>>=◌}
use klos.Heap.{
  Blocks, Heap, PageSource, advance, null, units, find_place, link_free, kfree, kbrk, kalloc,
}
use klos.Heap.Ring.{within, covered, IsHeap}
use klos.Heap.Free.{IsAllocated, kfree-IsHeap}
use klos.Heap.Alloc.{any_fit, kalloc-IsHeap}
use klos.Heap.Grow.{MapsInTable, kbrk-IsHeap}
use klos.Heap.Exhausted.{kalloc-null}
use klos.Heap.RoundTrip.{kfree-kalloc}

-- The static header lies in the kernel's image.
abbrev base : ℕ
base = 0xC0108000

-- One free block of 0x100 units at the start of the heap, and one of as many in use behind it.
abbrev half : Blocks
half = record {
  next_block = update (update (λ _. 0) base 0xD0000000) 0xD0000000 base;
  block_size = update (update (λ _. 0) 0xD0000000 0x100) 0xD0000800 0x100;
  free = 0xD0000000;
}

abbrev free_list : List ℕ
free_list = 0xD0000000 ∷ []

half-IsHeap : IsHeap base 0xD0001000 half free_list
unfolding update
half-IsHeap = record {
  base_pos = omega arith;
  base_below = omega arith;
  limit_fits = omega arith;
  base_empty = refl;
  ring = (refl, omega arith, omega arith, (refl, omega arith));
  rover = refl;
}

used-IsAllocated : IsAllocated base 0xD0001000 0xD0000800 half free_list
unfolding update
used-IsAllocated = record {
  above = omega arith;
  full = omega arith;
  inside = omega arith;
  apart = (inl (omega arith), tt);
}

kfree-IsHeap_example :
    (k : Blocks) × (zs : List ℕ) × (kfree 8 0xD0000808 half ≡ ok k)
    × IsHeap base 0xD0001000 k zs
    × ((a : ℕ) → covered k zs a ≡ (covered half free_list a || within 0xD0000800 0x100 a))
    × ((a : ℕ) → a ∉ (base ∷ free_list) → a ≢ 0xD0000800 → k.block_size a ≡ half.block_size a)
unfolding update
kfree-IsHeap_example = kfree-IsHeap 8 0xD0000800 half-IsHeap used-IsAllocated (omega arith)

-- Pages that a counter hands out until it reaches 0; no mapping is recorded, but the first page at
-- 0xD0400000 takes a page of the heap for its table.
abbrev counted : PageSource ℕ
counted = record {
  mm_page_allocate = λ n. (n * 0x1000, n - 1);
  pg_map = λ virt physical supervisor t.
      if virt == 0xD0400000 then record t { alloc = t.alloc + 1 } else t;
}

abbrev heap : ℕ → Heap ℕ
heap pages = record { blocks = half; alloc = 1; pages = pages }

kalloc-IsHeap_example :
    (ptr : ℕ) × (k : Blocks) × (zs : List ℕ) × (kalloc counted base 8 8 100 (heap 0)
      ≡ ok (advance ptr 1, record (heap 0) { blocks = k }))
    × IsHeap base 0xD0001000 k zs
    × IsAllocated base 0xD0001000 ptr k zs
    × (length zs ≤ 1)
    × (k.block_size ptr ≡ units 100)
    × ((a : ℕ) → covered half free_list a ≡ (covered k zs a || within ptr (units 100) a))
unfolding any_fit units update
kalloc-IsHeap_example = kalloc-IsHeap counted {s = heap 0} 8 8 100 half-IsHeap refl (omega arith)

kalloc-null_example : kalloc counted base 8 8 0x2000 (heap 0) ≡ ok (null, heap 0)
unfolding any_fit units update
kalloc-null_example =
    kalloc-null counted {s = heap 0} 8 8 0x2000 half-IsHeap refl refl (omega arith)

counted-MapsInTable : MapsInTable counted (λ virt n. virt < 0xD0400000)
counted-MapsInTable = record {
  blocks = λ virt physical supervisor t h. ground arith;
  alloc = λ virt physical supervisor t h. ground arith;
}

kbrk-IsHeap_example :
    (k : Blocks) × (zs : List ℕ) × (kbrk counted 8 (heap 3)
      ≡ ok (true, record { blocks = k; alloc = 2; pages = 2 }))
    × IsHeap base 0xD0002000 k zs
    × ((a : ℕ) → covered k zs a ≡ (covered half free_list a || within 0xD0001000 0x200 a))
kbrk-IsHeap_example =
    kbrk-IsHeap counted (λ virt n. virt < 0xD0400000) {s = heap 3} 8 counted-MapsInTable
      (omega arith) half-IsHeap (omega arith) (omega arith) (λ e. absurd (omega arith))

kfree-kalloc_example :
    (ptr : ℕ) × (t : Heap ℕ) × (k : Blocks) × (zs : List ℕ) × (kalloc counted base 8 8 100 (heap 0)
      ≡ ok (ptr, t))
    × (kfree 8 ptr t.blocks ≡ ok k)
    × IsHeap base 0xD0001000 k zs
    × ((a : ℕ) → covered k zs a ≡ covered half free_list a)
unfolding any_fit units update
kfree-kalloc_example =
    kfree-kalloc counted (heap 0) 8 8 100 half-IsHeap refl (omega arith) (omega arith)

-- A kernel with no heap yet: the first call of `kbrk` faults, the first call of `kalloc` asks for
-- a page and serves it from the top.
abbrev nothing : Heap ℕ
nothing = record {
  blocks = record { next_block = λ _. 0; block_size = λ _. 0; free = 0 };
  alloc = 0;
  pages = 5;
}

first_address : ℕ × Heap ℕ → ℕ
first_address (p, s) = p

first_kalloc : (do r ← kalloc counted base 8 8 100 nothing; ok (first_address r)) ≡ ok 0xD0000F98
unfolding kalloc first_address kfree find_place link_free update
first_kalloc = refl

first_kbrk : kbrk counted 8 nothing ≡ fault
unfolding kbrk kfree
first_kbrk = refl
