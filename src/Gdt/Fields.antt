-- ===== src/Gdt/Fields.antt =====
-- The base, the limit and the flags that a descriptor of src/kernel/gdt.cpp stands for.
use klos.Base.{
  ℕ, ◌+◌, ◌*◌, ◌/◌, ◌%◌, ◌^◌, ◌<◌, ◌≡◌, ◌≢◌, refl, ap, ◌∙◌, some, lt→ltb, update, update_self,
  update_ne, bit_and, bit_or, ◌<<<◌, ◌>>>◌, arith,
}
use klos.Base.Bits.{
  bit_or_fields_swap, bit_or-above, bit_and_split, bit_and-zero, bit_and_low, bit_or_fields,
  bit_or-add,
}
use klos.Gdt.{GdtEntry, Gdt, write_entry, gd_set_base, gd_set_limit, gd_set_segment}

-- The fields as the processor puts them together.
pub base_of : GdtEntry → ℕ
base_of e = e.base_low + e.base_mid * 2 ^ 16 + e.base_high * 2 ^ 24

pub limit_of : GdtEntry → ℕ
limit_of e = e.limit_low + e.flags2 % 16 * 2 ^ 16

-- The flags of flags2, which stand above the limit's highest bits.
pub upper_flags : GdtEntry → ℕ
upper_flags e = e.flags2 / 16

-- g' is g but for the descriptor at index.
pub OnlyAt : ℕ → Gdt → Gdt → Type 0
OnlyAt index g g' = ((i : ℕ) → i ≢ index → g'.gdt i ≡ g.gdt i) × (g'.nentries ≡ g.nentries)

write_entry_within :
    (index : ℕ) (e : GdtEntry) (g : Gdt)
    → index < 6
    → (g' : Gdt) × (write_entry index e g ≡ some g') × (g'.gdt index ≡ e) × OnlyAt index g g'
unfolding write_entry OnlyAt
write_entry_within index e g h = (
  record g { gdt = update g.gdt index e },
  rw (lt→ltb index 6 h) refl,
  update_self g.gdt index e,
  (λ i ne. update_ne g.gdt index i e ne, refl),
)

base_bits :
    (base : ℕ)
    → base < 2 ^ 32
    → bit_and base 0xFFFF
        + bit_and (base >>> 16) 0xFF * 2 ^ 16
        + bit_and (base >>> 24) 0xFF * 2 ^ 24
      ≡ base
base_bits base h =
    omega (arith, bit_and_low 16 base, bit_and_low 8 (base / 2 ^ 16), bit_and_low 8 (base / 2 ^ 24))

-- For an index inside the array, `gd_set_base` succeeds, changes no other descriptor, and leaves one
-- with that base and the limit and the flags that it had.
base_of-gd_set_base :
    (index base : ℕ) (g : Gdt)
    → index < 6
    → base < 2 ^ 32
    → (g' : Gdt) × (gd_set_base index base g ≡ some g')
      × OnlyAt index g g'
      × (base_of (g'.gdt index) ≡ base)
      × (limit_of (g'.gdt index) ≡ limit_of (g.gdt index))
      × (upper_flags (g'.gdt index) ≡ upper_flags (g.gdt index))
      × ((g'.gdt index).flags1 ≡ (g.gdt index).flags1)
unfolding gd_set_base base_of limit_of upper_flags
base_of-gd_set_base index base g hi hb =
    let e = record (g.gdt index) {
      base_low = bit_and base 0xFFFF;
      base_mid = bit_and (base >>> 16) 0xFF;
      base_high = bit_and (base >>> 24) 0xFF;
    } in
    let (g', run, at, only) = write_entry_within index e g hi in
    (
      g',
      run,
      only,
      ap base_of at ∙ base_bits base hb,
      ap limit_of at,
      ap upper_flags at,
      ap GdtEntry.flags1 at,
    )

nibble : (f : ℕ) → f < 2 ^ 8 → bit_and f 0xF0 ≡ f / 16 * 16
nibble f h =
    ground (
      arith,
      bit_and_split 4 (f / 16) 0xF (f % 16) 0,
      bit_and-zero (f % 16),
      bit_and_low 4 (f / 16),
    )

limit_bits :
    (f limit : ℕ)
    → f < 2 ^ 8
    → bit_or (bit_and f 0xF0) (bit_and (limit >>> 16) 0x0F) ≡ f / 16 * 16 + limit / 2 ^ 16 % 16
limit_bits f limit h =
    rw (nibble f h, bit_and_low 4 (limit / 2 ^ 16))
      (bit_or_fields 4 (f / 16) (limit / 2 ^ 16 % 16) (omega arith))

-- For an index inside the array and flags of eight bits, `gd_set_limit` succeeds, changes no other
-- descriptor, and leaves one with the limit's 20 low bits and the base and the flags that it had.
limit_of-gd_set_limit :
    (index limit : ℕ) (g : Gdt)
    → index < 6
    → (g.gdt index).flags2 < 2 ^ 8
    → (g' : Gdt) × (gd_set_limit index limit g ≡ some g')
      × OnlyAt index g g'
      × (limit_of (g'.gdt index) ≡ limit % 2 ^ 20)
      × (base_of (g'.gdt index) ≡ base_of (g.gdt index))
      × (upper_flags (g'.gdt index) ≡ upper_flags (g.gdt index))
      × ((g'.gdt index).flags1 ≡ (g.gdt index).flags1)
unfolding gd_set_limit base_of limit_of upper_flags
limit_of-gd_set_limit index limit g hi hf =
    let f = (g.gdt index).flags2 in
    let e = record (g.gdt index) {
      limit_low = bit_and limit 0xFFFF;
      flags2 = bit_or (bit_and f 0xF0) (bit_and (limit >>> 16) 0x0F);
    } in
    let (g', run, at, only) = write_entry_within index e g hi in
    (
      g',
      run,
      only,
      ap limit_of at ∙ omega (arith, bit_and_low 16 limit, limit_bits f limit hf),
      ap base_of at,
      ap upper_flags at ∙ omega (arith, limit_bits f limit hf),
      ap GdtEntry.flags1 at,
    )

segment_flags2 :
    (f gran avl : ℕ)
    → bit_or
        (bit_or (bit_or (bit_and f 0x0F) (bit_and gran 0x01 <<< 7)) (0x01 <<< 6))
        (bit_and avl 0x01 <<< 4)
      ≡ (gran % 2 * 8 + 4 + avl % 2) * 16 + f % 16
segment_flags2 f gran avl =
    let k = gran % 2 in
    let a = avl % 2 in
    let low = f % 16 in
    rw
      (
        bit_and_low 4 f,
        bit_and_low 1 gran,
        bit_and_low 1 avl,
        bit_or_fields_swap 7 k low (omega arith),
        bit_or-above 6 (k * 2) 1 low (k * 128 + low) 64 (omega arith) (omega arith) (omega arith),
        bit_or-add 1 k 1 (k * 2) (omega arith) (omega arith),
        bit_or-above 4 (k * 8 + 4) a low ((k * 2 + 1) * 64 + low) (a * 16) (omega arith)
            (omega arith) (omega arith),
        bit_or-add 2 (k * 2 + 1) a (k * 8 + 4) (omega arith) (omega arith),
      )
      refl

segment_flags1 :
    (present dpl dtype type : ℕ)
    → bit_or
        (bit_or
          (bit_or (bit_and present 0x01 <<< 7) (bit_and dpl 0x03 <<< 5))
          (bit_and dtype 0x01 <<< 4))
        (bit_and type 0x0F)
      ≡ present % 2 * 128 + dpl % 4 * 32 + dtype % 2 * 16 + type % 16
segment_flags1 present dpl dtype type =
    rw
      (
        bit_and_low 1 present,
        bit_and_low 2 dpl,
        bit_and_low 1 dtype,
        bit_and_low 4 type,
        bit_or-add 7 (present % 2) (dpl % 4 * 32) (present % 2 * 128) refl (omega arith),
        bit_or-add 5 (present % 2 * 4 + dpl % 4) (dtype % 2 * 16) (present % 2 * 128 + dpl % 4 * 32)
            (omega arith) (omega arith),
        bit_or-add 4 (present % 2 * 8 + dpl % 4 * 2 + dtype % 2) (type % 16)
            (present % 2 * 128 + dpl % 4 * 32 + dtype % 2 * 16) (omega arith) (omega arith),
      )
      refl

-- For an index inside the array, `gd_set_segment` succeeds, changes no other descriptor, keeps the
-- base and the limit, and leaves the flags that it was given: granularity, 32 bits and
-- availability above the limit, and presence, ring, kind and type in flags1.
flags-gd_set_segment :
    (index gran avl present dpl dtype type : ℕ) (g : Gdt)
    → index < 6
    → (g' : Gdt) × (gd_set_segment index gran avl present dpl dtype type g ≡ some g')
      × OnlyAt index g g'
      × (base_of (g'.gdt index) ≡ base_of (g.gdt index))
      × (limit_of (g'.gdt index) ≡ limit_of (g.gdt index))
      × (upper_flags (g'.gdt index) ≡ gran % 2 * 8 + 4 + avl % 2)
      × ((g'.gdt index).flags1 ≡ present % 2 * 128 + dpl % 4 * 32 + dtype % 2 * 16 + type % 16)
unfolding gd_set_segment base_of limit_of upper_flags
flags-gd_set_segment index gran avl present dpl dtype type g hi =
    let f = (g.gdt index).flags2 in
    let e = record (g.gdt index) {
      flags2 =
          bit_or (bit_or (bit_or (bit_and f 0x0F) (bit_and gran 0x01 <<< 7)) (0x01 <<< 6))
            (bit_and avl 0x01 <<< 4);
      flags1 =
          bit_or
            (bit_or (bit_or (bit_and present 0x01 <<< 7) (bit_and dpl 0x03 <<< 5))
              (bit_and dtype 0x01 <<< 4))
            (bit_and type 0x0F);
    } in
    let (g', run, at, only) = write_entry_within index e g hi in
    let two = segment_flags2 f gran avl in
    (
      g',
      run,
      only,
      ap base_of at,
      ap limit_of at ∙ omega (arith, two),
      ap upper_flags at ∙ omega (arith, two),
      ap GdtEntry.flags1 at ∙ segment_flags1 present dpl dtype type,
    )
