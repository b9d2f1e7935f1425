-- ===== src/Ata/Command.antt =====
-- The sector and the drive that `ata_pio_read` of src/kernel/ata.cpp asks the controller for.
use klos.Base.{
  ℕ, ◌+◌, ◌*◌, ◌/◌, ◌%◌, ◌^◌, ◌<◌, ◌≡◌, ◌↔◌, refl, List, [], ◌∷◌, ◌==◌, if◌then◌else◌, arith,
}
use klos.Base.Bits.{bit_and_low}
use klos.Ata.{read_command}

-- The value that a port holds after the writes.
unfoldable pub latched : ℕ → ℕ → List (ℕ × ℕ) → ℕ
latched port v [] = v
latched port v ((w, p) ∷ writes) = latched port (if p == port then w else v) writes

-- The 28 bits of the sector, and the bit that selects the second drive.
unfoldable pub lba_of : List (ℕ × ℕ) → ℕ
unfolding latched
lba_of writes =
    latched 0x1F3 0 writes
    + latched 0x1F4 0 writes * 2 ^ 8
    + latched 0x1F5 0 writes * 2 ^ 16
    + latched 0x1F6 0 writes % 16 * 2 ^ 24

unfoldable pub drive_of : List (ℕ × ℕ) → ℕ
unfolding latched
drive_of writes = latched 0x1F6 0 writes / 16 % 2

-- `ata_pio_read` always selects the first drive, and asks for the sector that it is given exactly
-- where that is below 2^24 and its bits 16 to 23 are its bits 8 to 15; it then asks for as many
-- sectors as the length has whole blocks of 512 bytes, modulo 256.
pub lba_of-read_command :
    (device_id sector length : ℕ)
    → ((lba_of (read_command device_id sector length) ≡ sector)
        ↔ ((sector < 2 ^ 24) × (sector / 2 ^ 16 % 2 ^ 8 ≡ sector / 2 ^ 8 % 2 ^ 8)))
      × (drive_of (read_command device_id sector length) ≡ 0)
      × (latched 0x1F2 0 (read_command device_id sector length) ≡ length / 512 % 256)
unfolding lba_of drive_of read_command
lba_of-read_command device_id sector length =
    let low = bit_and_low 8 sector in
    let mid = bit_and_low 8 (sector / 2 ^ 8) in
    let asked : lba_of (read_command device_id sector length)
        ≡ sector % 256 + sector / 256 % 256 * 256 + sector / 256 % 256 * 65536 =
      omega (arith, low, mid) in
    ((λ h. omega arith, λ h. omega arith), refl, refl)
