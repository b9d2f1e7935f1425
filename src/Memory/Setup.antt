-- ===== src/Memory/Setup.antt =====
-- `setup_memory_manager` of src/kernel/memory.cpp, which maps the memory of a stack and fills it.
use klos.Base.{
  ℕ, zero, suc, ◌+◌, ◌*◌, ◌/◌, ltb, if◌then◌else◌, Option, none, some, u32, sub32, upto,
}
use klos.Memory.{FrameStacks, mm_page_free}

-- What it calls of paging, on the kernel's table and for the supervisor.
pub record Mapper (S : Type 0) : Type 0 where
  pub pg_setup_pagetable : (virt virt_tbl phys_tbl : ℕ) → S → S
  pub pg_map : (virt physical : ℕ) → S → S

-- `for(i = first_free_page; i < memory_size; i += 0x1000) mm_page_free(i);`; `none` means that the
-- fuel ran out. The counter is an `int` that is compared as `uint32_t`.
unfoldable pub free_loop : (fuel i memory_size : ℕ) → FrameStacks → Option FrameStacks
unfolding mm_page_free
free_loop zero i memory_size s = none
free_loop (suc fuel) i memory_size s =
    let rest = free_loop fuel (u32 (i + 0x1000)) memory_size (mm_page_free i s) in
    if ltb i memory_size then rest else some s

module _ {S : Type 0} (paging : Mapper S) where
  open paging use {pg_setup_pagetable, pg_map}

  -- The table and the pages of the stack at 0xC1500000, from the page `first` on.
  unfoldable pub map_stack : (first pages : ℕ) → S → S
  unfolding upto
  map_stack first pages m =
      upto pages
        (λ i m. pg_map (u32 (0xC1500000 + i * 0x1000)) (u32 (first + 0x1000 + i * 0x1000)) m)
        (pg_setup_pagetable 0xC1500000 (u32 (sub32 first 0x00100000 + 0xC0000000)) first m)

  unfoldable pub setup_memory_manager :
      (fuel first_free_page memory_size : ℕ) → FrameStacks × S → Option (FrameStacks × S)
  unfolding free_loop map_stack
  setup_memory_manager fuel first_free_page memory_size (s, m) =
      let pages = memory_size / 0x1000 * 0x04 / 0x1000 + 0x01 in
      let filled = free_loop fuel (u32 (first_free_page + 0x1000 + pages * 0x1000)) memory_size s in
      let mapped = map_stack first_free_page pages m in
      elim filled [ none ↦ none | some t ↦ some (t, mapped) ]
