-- ===== src/Paging/Entry.antt =====
-- The words of page tables and directories of src/kernel/paging.cpp, read as an address and flags, and
-- the two indices that a virtual address is split into.
use klos.Base.{
  ℕ, ◌+◌, ◌*◌, ◌/◌, ◌%◌, ◌^◌, ◌<◌, ◌≡◌, refl, sym, ◌∙◌, inl, inr, ◌==◌, if◌then◌else◌, bit_and,
  Bool-cases, arith,
}
use klos.Base.Bits.{bit_and_page, bit_and_low, bit_or-add, bit_or-zero}
use klos.Paging.{page_word, pg_pde_index, pg_pte_index, addressmask}

-- The flags that a page table's word gets.
abbrev pub page_flags : ℕ → ℕ
page_flags supervisor = if supervisor == 0 then 7 else 3

pub page_word-fields :
    (physical supervisor : ℕ)
    → physical < 2 ^ 32
    → page_word physical supervisor ≡ physical / 4096 * 4096 + page_flags supervisor
unfolding page_word
page_word-fields physical supervisor h =
    let q = physical / 4096 in
    elim (Bool-cases (supervisor == 0)) [
      | inl e ↦
          rw
            (
              e,
              bit_and_page physical h,
              bit_or-add 12 q 4 (q * 4096) refl (omega arith),
              bit_or-add 2 (q * 1024 + 1) 2 (q * 4096 + 4) (omega arith) (omega arith),
              bit_or-add 1 (q * 2048 + 3) 1 (q * 4096 + 4 + 2) (omega arith) (omega arith),
            )
            (omega arith)
      | inr e ↦
          rw
            (
              e,
              bit_and_page physical h,
              bit_or-zero (q * 4096),
              bit_or-add 12 q 2 (q * 4096) refl (omega arith),
              bit_or-add 1 (q * 2048 + 1) 1 (q * 4096 + 2) (omega arith) (omega arith),
            )
            (omega arith)
    ]

pub page_word-address :
    (physical supervisor : ℕ)
    → physical < 2 ^ 32
    → bit_and (page_word physical supervisor) addressmask ≡ physical / 4096 * 4096
page_word-address physical supervisor h =
    let f = page_word-fields physical supervisor h in
    elim (Bool-cases (supervisor == 0)) [
      | inl e ↦ rw (f, e, bit_and_page (physical / 4096 * 4096 + 7) (omega arith)) (omega arith)
      | inr e ↦ rw (f, e, bit_and_page (physical / 4096 * 4096 + 3) (omega arith)) (omega arith)
    ]

pub pg_pte_index-mod : (virt : ℕ) → pg_pte_index virt ≡ virt / 4096 % 1024
unfolding pg_pte_index
pg_pte_index-mod virt = bit_and_low 10 (virt / 4096)

pub pg_pde_index-mod : (virt : ℕ) → virt < 2 ^ 32 → pg_pde_index virt ≡ virt / 2 ^ 22
unfolding pg_pde_index
pg_pde_index-mod virt h = bit_and_low 10 (virt / 2 ^ 22) ∙ omega arith

-- Two addresses with the same indices lie in the same page.
pub page_of_indices :
    (v w : ℕ)
    → v < 2 ^ 32
    → w < 2 ^ 32
    → pg_pde_index v ≡ pg_pde_index w
    → pg_pte_index v ≡ pg_pte_index w
    → v / 4096 ≡ w / 4096
page_of_indices v w hv hw ed et =
    let a = sym (pg_pde_index-mod v hv) ∙ ed ∙ pg_pde_index-mod w hw in
    let b = sym (pg_pte_index-mod v) ∙ et ∙ pg_pte_index-mod w in omega arith

-- Addresses in the same page have the same indices.
pub indices_of_page :
    (v w : ℕ)
    → v < 2 ^ 32
    → w < 2 ^ 32
    → v / 4096 ≡ w / 4096
    → (pg_pde_index v ≡ pg_pde_index w) × (pg_pte_index v ≡ pg_pte_index w)
indices_of_page v w hv hw e = (
  pg_pde_index-mod v hv ∙ omega arith ∙ sym (pg_pde_index-mod w hw),
  pg_pte_index-mod v ∙ omega arith ∙ sym (pg_pte_index-mod w),
)
