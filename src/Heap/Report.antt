-- ===== src/Heap/Report.antt =====
-- The list of free blocks that src/kernel/kalloc.cpp prints.
use klos.Base.{ℕ, zero, suc, ◌*◌, Option, none, some, [], ◌∷◌, ◌==◌, if◌then◌else◌, u32, ◌>>=◌}
use klos.Base.Text.{codes}
use klos.Console.{Console, number, kc_printf}
use klos.Heap.{Blocks, Heap, header, init_free}

-- The loop of `kh_print_block_list` from p on; `none` also means that the fuel ran out.
unfoldable pub print_loop : (fuel p : ℕ) → Blocks → Console → Option Console
print_loop zero p h c = none
print_loop (suc fuel) p h c =
    kc_printf 8 (codes "%x (%x)>") (number p ∷ number (u32 (h.block_size p * header)) ∷ []) c
    >>= λ n. let rest = print_loop fuel (h.next_block p) h n in if p == h.free then some n else rest

module _ {S : Type 0} where
  unfoldable pub kh_print_block_list :
      (base fuel : ℕ) → Heap S → Console → Option (Heap S × Console)
  kh_print_block_list base fuel s c =
      let h = init_free base s.blocks in
      print_loop fuel (h.next_block h.free) h c >>= λ n.
      kc_printf 8 (codes "\n") [] n >>= λ m. some (record s { blocks = h }, m)
