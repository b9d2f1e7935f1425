-- ===== src/Entry/Costs.antt =====
-- The memory that the calls of `main` in src/kernel/main.cpp take from the heap.
use klos.Base.{ℕ, zero, suc, ◌+◌, ◌≡◌, subst, upto, ◌<<<◌, arith}
use klos.Base.Allocator.{Allocator}
use klos.Process.Lives.{Services}
use klos.Ata.{Machine}
use klos.Entry.{Parts, Image, map_page}

module _ {S V : Type 0} (parts : Parts S) (services : Services S) (view : S → V)
    (Room Held : ℕ → V → Type 0) where
  open parts use {pg_map, pg_remove_pagetable, mm_page_allocate, kbrk}
  open services use {kalloc, pg_create_user_page_directory}

  -- A call takes no more than the heap has room for by one count, and frees no block.
  abbrev pub Step : (S → S) → Type 0
  Step f =
      (k : ℕ)
      → (r : S) → Room (suc k) (view r)
      → Room k (view (f r)) × ((p : ℕ) → Held p (view r) → Held p (view (f r)))

  pub record Unused : Type 0 where
    pub heap : Allocator kalloc view Room Held
    pub directory : Step (λ r. (pg_create_user_page_directory r).1)
    pub page : Step (λ r. (mm_page_allocate r).1)
    pub map : (t virt physical supervisor : ℕ) → Step (pg_map t virt physical supervisor)
    pub remove : (t virt : ℕ) → Step (pg_remove_pagetable t virt)
    pub grow : Step kbrk

  -- n calls of `kbrk`.
  pub kbrk_rounds :
      (n k : ℕ) (r : S) → Unused → Room (n + k) (view r) → Room k (view (upto n (λ i r. kbrk r) r))
  unfolding upto
  kbrk_rounds zero k r a room =
      let same : 0 + k ≡ k = omega arith in subst (λ x. Room x (view r)) same room
  kbrk_rounds (suc n) k r a room =
      let same : suc n + k ≡ n + suc k = omega arith in
      let before = kbrk_rounds n (suc k) r a (subst (λ x. Room x (view r)) same room) in
      (a.grow k (upto n (λ i r. kbrk r) r) before).0

  module _ (machine : Machine S) (image : Image) (rounds fuel : ℕ) where
    map_page-Room :
        (table i k : ℕ) (r : S)
        → Unused
        → Room (suc (suc (suc k))) (view r)
        → Room k (view (map_page parts services machine image rounds fuel table i r))
          × ((p : ℕ)
              → Held p (view r)
              → Held p (view (map_page parts services machine image rounds fuel table i r)))
    unfolding map_page
    map_page-Room table i k r a room =
        let (page, r₁) = mm_page_allocate r in
        let r₂ = pg_map table (i <<< 12) page 0 r₁ in
        let one = a.page (suc (suc k)) r room in
        let two = a.map table (i <<< 12) page 0 (suc k) r₁ one.0 in
        let three = a.map (parts.pg_kernel r₂) (i <<< 12) page 1 k r₂ two.0 in
        (three.0, λ p h. three.1 p (two.1 p (one.1 p h)))

    pub two_pages-Room :
        (table k : ℕ) (r : S)
        → Unused
        → Room (suc (suc (suc (suc (suc (suc k)))))) (view r)
        → Room k (view (upto 2 (map_page parts services machine image rounds fuel table) r))
          × ((p : ℕ)
              → Held p (view r)
              → Held p (view (upto 2 (map_page parts services machine image rounds fuel table) r)))
    unfolding upto
    two_pages-Room table k r a room =
        let one = map_page-Room table 0 (suc (suc (suc k))) r a room in
        let n = map_page parts services machine image rounds fuel table 0 r in
        let two = map_page-Room table 1 k n a one.0 in (two.0, λ p h. two.1 p (one.1 p h))
