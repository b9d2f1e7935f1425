-- ===== src/Ata/Examples.antt =====
-- A machine with two drives on the first controller, whose data port counts.
use klos.Base.{
  ℕ, suc, ◌+◌, ◌-◌, ◌/◌, ◌%◌, ◌^◌, ◌<◌, ◌≡◌, ◌↔◌, refl, some, [], ◌==◌, if◌then◌else◌, arith,
}
use klos.Ata.{Ata, Machine, ata_pio_read, read_command, out_all}
use klos.Ata.Command.{lba_of, drive_of, latched, lba_of-read_command}
use klos.Ata.Transfer.{Answers, filled, ata_pio_read-filled}

abbrev counting : Machine ℕ
counting = record {
  outb = λ v p m. m;
  inb = λ p m. (if p == 0x1F3 then 0xBA else 0x58, m);
  inw = λ p m. (m, suc m);
  kalloc = λ n m. (suc m, m + 16);
}

abbrev no_devices : Ata ℕ
no_devices = record {
  device = λ p. record { base_register = 0; device_id = 0; flags = 0; next_device = 0 };
  device_list = 0;
  byte = λ p. 0xFF;
  console = record { text = λ i. 0; text_base = 0xB8000; x = 0; y = 0; ports = [] };
  rest = 0;
}

lba_of-read_command_example :
    ((lba_of (read_command 1 0x12345 512) ≡ 0x12345)
      ↔ ((0x12345 < 2 ^ 24) × (0x12345 / 2 ^ 16 % 2 ^ 8 ≡ 0x12345 / 2 ^ 8 % 2 ^ 8)))
    × (drive_of (read_command 1 0x12345 512) ≡ 0)
    × (latched 0x1F2 0 (read_command 1 0x12345 512) ≡ 512 / 512 % 256)
lba_of-read_command_example = lba_of-read_command 1 0x12345 512

counting-Answers : Answers counting 0 (λ i. 0x58) (λ i. 0)
counting-Answers = record {
  read = λ i. refl;
  busy = λ i h. absurd (omega arith);
  ready = λ e. absurd (omega arith);
}

first : 0 ≡ out_all counting (read_command 0 5 512) 0
unfolding out_all read_command
first = refl

ata_pio_read-filled_example :
    (s' : Ata ℕ) × (ata_pio_read counting 8 1 0 0x1000 5 512 no_devices ≡ some s')
    × ((q : ℕ) → s'.byte q ≡ filled (512 / 2) 0x1000 (λ i. i) (λ p. 0xFF) q)
    × (s'.rest ≡ 512 / 2)
    × (s'.console ≡ no_devices.console)
ata_pio_read-filled_example =
    ata_pio_read-filled counting 8 1 0 0x1000 5 512 0 (λ i. 0x58) (λ i. i) (λ i. 0) (λ i. i)
      no_devices first counting-Answers (omega arith) refl refl refl (record { next = λ i. refl })

-- The first controller echoes and both its drives are ready; the heap goes downwards.
abbrev echo : ℕ → ℕ
echo base = if base == 0x1F0 then 0xBA else 0x58

abbrev status : ℕ → ℕ → ℕ
status base select = if base == 0x1EC then 0xBA else 0x58

abbrev falling : Machine ℕ
falling = record {
  outb = λ v p m. m;
  inb = λ p m. (if p == 0x1F3 then 0xBA else 0x58, m);
  inw = λ p m. (0, m);
  kalloc = λ n m. (m - n - 8, m - n - 8);
}
