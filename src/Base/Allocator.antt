-- ===== src/Base/Allocator.antt =====
-- What the kernel's parts rely on when they take memory from the heap of src/kernel/kalloc.cpp.
use Prim.Native.Nat.{ℕ, suc, ◌≤◌}
use mathlib.Core.Logic.{◌≢◌}

-- `Room k v`: the heap is sound, and has memory for k more calls. `Held p v`: p is a block in use. A
-- request that there is room for, of a page at most, gives a block that is not NULL and not in use, and the
-- other blocks stay in use. Nothing is said about a heap that has run out, or about the order of addresses.
pub record Allocator {S V : Type 0} (kalloc : ℕ → S → ℕ × S) (view : S → V)
    (Room Held : ℕ → V → Type 0) : Type 0 where
  pub less : (k : ℕ) (m : S) → Room (suc k) (view m) → Room k (view m)
  pub given :
      (k n : ℕ) (m : S)
      → n ≤ 4096
      → Room (suc k) (view m)
      → ((kalloc n m).0 ≢ 0)
        × Held (kalloc n m).0 (view (kalloc n m).1)
        × Room k (view (kalloc n m).1)
  pub apart :
      (k n p : ℕ) (m : S)
      → n ≤ 4096
      → Room (suc k) (view m)
      → Held p (view m)
      → ((kalloc n m).0 ≢ p) × Held p (view (kalloc n m).1)
