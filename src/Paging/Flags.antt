-- ===== src/Paging/Flags.antt =====
-- The word that src/kernel/paging.cpp gives a page table that two address spaces share.
use klos.Base.{
  ℕ, ◌+◌, ◌*◌, ◌/◌, ◌%◌, ◌<◌, ◌≡◌, refl, Bool, ◌&&◌, ltb, zero, suc, ◌==◌, bit_and, bit_or, arith,
}
use klos.Base.Bits.{bit_and_le, bit_and_low, bit_and_split, bit_or_split, bit_and-zero, bit_or-zero}
use klos.Paging.{present, writable, user, pde_copyonwrite}

-- The entry of a user's table that is present, read-only and marked copy-on-write.
unfoldable pub shared : ℕ → ℕ
shared d = bit_or (bit_and d 0xFFFFFFFD) pde_copyonwrite

unfoldable pub is_user : ℕ → ℕ → Bool
is_user i d = ltb i 0x300 && (bit_and d user == user && bit_and d present == present)

small_bound : (r : ℕ) → r < 4 → bit_or (bit_and r 1) 0 < 4
small_bound r h = omega (arith, bit_and_le r 1, bit_or-zero (bit_and r 1))

small_writable : (r : ℕ) → r < 4 → bit_and (bit_or (bit_and r 1) 0) 2 ≡ 0
small_writable zero h = refl
small_writable (suc zero) h = refl
small_writable (suc (suc zero)) h = refl
small_writable (suc (suc (suc zero))) h = refl
small_writable (suc (suc (suc (suc r)))) h = absurd (omega arith)

-- Writing q * 4 + r for d, the mask clears bit 1 of r.
shared_fields : (q r : ℕ) → r < 4 → bit_and (shared (q * 4 + r)) writable ≡ 0
unfolding shared
shared_fields q r h =
    let low = bit_or (bit_and r 1) 0 in
    let bound : low < 4 = small_bound r h in
    rw
      (
        bit_and_split 2 q 0x3FFFFFFF r 1 h (omega arith),
        bit_or_split 2 (bit_and q 0x3FFFFFFF) 0x80 (bit_and r 1) 0 (omega (arith, bit_and_le r 1))
            (omega arith),
        bit_and_split 2 (bit_or (bit_and q 0x3FFFFFFF) 0x80) 0 low 2 bound (omega arith),
      )
      (ground (arith, small_writable r h, bit_and-zero (bit_or (bit_and q 0x3FFFFFFF) 0x80)))

odd_or_digit : (r : ℕ) → r < 2 → bit_or r 1 ≡ 1
odd_or_digit zero h = refl
odd_or_digit (suc zero) h = refl
odd_or_digit (suc (suc r)) h = absurd (omega arith)

odd_or_low : (q r : ℕ) → r < 2 → bit_or (q * 2 + r) 1 % 2 ≡ 1
odd_or_low q r h = rw (bit_or_split 1 q 0 r 1 h (omega arith)) (omega (arith, odd_or_digit r h))

-- Bit 0 of q | 1.
odd_or : (q : ℕ) → bit_and (bit_or q 1) 1 ≡ 1
odd_or q = ground (arith, bit_and_low 1 (bit_or q 1), odd_or_low (q / 2) (q % 2))

masked_lt : (r : ℕ) → r < 512 → bit_and r 0x1FD < 512
masked_lt r h = omega (arith, bit_and_le r 0x1FD)

-- Writing q * 512 + r for d, the mark is bit 0 of the part over 512.
kept_bit : (q r : ℕ) → r < 512 → bit_and (shared (q * 512 + r)) pde_copyonwrite ≡ pde_copyonwrite
unfolding shared
kept_bit q r h =
    let upper = bit_and q 0x7FFFFF in
    let low = bit_and r 0x1FD in
    let bound : bit_or low 0 < 512 = omega (arith, masked_lt r h, bit_or-zero low) in
    rw
      (
        bit_and_split 9 q 0x7FFFFF r 0x1FD h (omega arith),
        bit_or_split 9 upper 1 low 0 (masked_lt r h) (omega arith),
        bit_and_split 9 (bit_or upper 1) 1 (bit_or low 0) 0 bound (omega arith),
      )
      (ground (arith, odd_or upper, bit_and-zero (bit_or low 0)))

-- The entry that a present user table gets is not writable and has the mark that
-- `pg_resolve_fault` looks for.
shared_flags :
    (d : ℕ)
    → (bit_and (shared d) writable ≡ 0) × (bit_and (shared d) pde_copyonwrite ≡ pde_copyonwrite)
unfolding shared
shared_flags d =
    (ground (arith, shared_fields (d / 4) (d % 4)), ground (arith, kept_bit (d / 512) (d % 512)))
