-- ===== src/Pci/Address.antt =====
-- The fields of the configuration addresses of src/kernel/pci.cpp.
use klos.Base.{
  Bool-cases, inl, inr, ℕ, zero, suc, ◌+◌, ◌*◌, ◌/◌, ◌%◌, ◌^◌, ◌<◌, ◌≡◌, refl, ap, ◌∙◌, ltb,
  if◌then◌else◌, bit_and, bit_or, u32, arith,
}
use klos.Base.Bits.{
  bit_or-add, bit_and_low, bit_and_split, bit_or_split, bit_or_fields_swap, bit_and-zero,
  bit_or-zero, zero-bit_or,
}
use klos.Pci.{pci_address}

-- The bus that the address asks for.
unfoldable pub bus_asked : (bus device : ℕ) → ℕ
bus_asked bus device = if ltb device 32 then bus else bus / 2 * 2 + 1

odd : (r : ℕ) → r < 2 → bit_or r 1 ≡ 1
odd zero h = refl
odd (suc zero) h = refl
odd (suc (suc r)) h = absurd (omega arith)

bit_or_one : (n : ℕ) → bit_or n 1 ≡ n / 2 * 2 + 1
bit_or_one n =
    let parts : n ≡ n / 2 * 2 ^ 1 + n % 2 = omega arith in
    ap (λ m. bit_or m 1) parts
    ∙ bit_or_split 1 (n / 2) 0 (n % 2) 1 (omega arith) (omega arith)
    ∙ rw (bit_or-zero (n / 2), odd (n % 2) (omega arith)) refl

bus_or : (bus device : ℕ) → device < 64 → bit_or bus (device / 32) ≡ bus_asked bus device
unfolding bus_asked
bus_or bus device h = elim (Bool-cases (ltb device 32)) [
  | inl e ↦ let low : device / 32 ≡ 0 = ground (arith, e) in rw (e, low) (bit_or-zero bus)
  | inr e ↦ let high : device / 32 ≡ 1 = ground (arith, e, h) in rw (e, high) (bit_or_one bus)
]

register : (offset : ℕ) → offset < 256 → bit_and offset 0xFC ≡ offset / 4 * 4
register offset h =
    let parts : offset ≡ offset / 4 * 2 ^ 2 + offset % 4 = omega arith in
    ap (λ m. bit_and m 0xFC) parts
    ∙ bit_and_split 2 (offset / 4) 0x3F (offset % 4) 0 (omega arith) (omega arith)
    ∙ rw (bit_and-zero (offset % 4), bit_and_low 6 (offset / 4)) (omega arith)

bus_asked_lt : (bus device : ℕ) → bus < 256 → bus_asked bus device < 256
unfolding bus_asked
bus_asked_lt bus device h = ground arith

-- The numbers of a bus and of a device of 6 bits, put together.
bus_and_device :
    (bus device : ℕ)
    → bus < 256
    → device < 64
    → bit_or (u32 (bus * 2 ^ 16)) (device * 2 ^ 11)
      ≡ (bus_asked bus device * 32 + device % 32) * 2 ^ 11
bus_and_device bus device hb hd =
    let flat : u32 (bus * 2 ^ 16) ≡ bus * 2 ^ 16 + 0 = omega arith in
    let parts : device * 2 ^ 11 ≡ device / 32 * 2 ^ 16 + device % 32 * 2 ^ 11 = omega arith in
    ap (λ m. bit_or m (device * 2 ^ 11)) flat
    ∙ ap (bit_or (bus * 2 ^ 16 + 0)) parts
    ∙ bit_or_split 16 bus (device / 32) 0 (device % 32 * 2 ^ 11) (omega arith) (omega arith)
    ∙ rw (bus_or bus device hd, zero-bit_or (device % 32 * 2 ^ 11)) (omega arith)

-- For a bus of 8 bits, a device below 64, as `print_pci_device_list` asks for, a function of 3 bits and
-- an offset of 8 bits, the address has the fields apart, with the lowest two bits of the offset
-- cleared; a device from 32 on asks for the device 32 below on an odd bus, the bus itself or the next.
pub pci_address-fields :
    (bus device function offset : ℕ)
    → bus < 256
    → device < 64
    → function < 8
    → offset < 256
    → pci_address bus device function offset
      ≡ 2 ^ 31
        + bus_asked bus device * 2 ^ 16
        + device % 32 * 2 ^ 11
        + function * 2 ^ 8
        + offset / 4 * 4
unfolding pci_address
pci_address-fields bus device function offset hb hd hf ho =
    let b = bus_asked bus device in
    let e = device % 32 in
    let hi = bus_asked_lt bus device hb in
    let all = (b * 32 + e) * 2 ^ 11 + function * 2 ^ 8 + offset / 4 * 4 in
    rw
      (
        bus_and_device bus device hb hd,
        register offset ho,
        bit_or-add 11 (b * 32 + e) (function * 2 ^ 8) ((b * 32 + e) * 2 ^ 11) refl (omega arith),
        bit_or-add 8 ((b * 32 + e) * 8 + function) (offset / 4 * 4)
            ((b * 32 + e) * 2 ^ 11 + function * 2 ^ 8) (omega arith) (omega arith),
        bit_or_fields_swap 31 1 all (omega (arith, hi)),
      )
      (omega arith)
