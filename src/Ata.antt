-- ===== src/Ata.antt =====
-- The ATA driver of src/kernel/ata.cpp. The machine's ports and the heap are parameters; what is
-- written to a port may change what later reads give.
pub mod Command
pub mod Transfer
pub mod Waits
pub mod Devices
mod Examples
use klos.Base.{
  ℕ, zero, suc, ◌+◌, ◌*◌, ◌/◌, ◌%◌, ◌^◌, Bool, true, false, ◌||◌, not, Option, none, some, List, [],
  ◌∷◌, ◌==◌, if◌then◌else◌, u8, u16, u32, update, upto, bit_and, bit_or, ◌<<<◌, ◌>>>◌, ◌>>=◌,
}
use klos.Base.Text.{codes}
use klos.Console.{Console, kc_print_string, kc_print_hex}

abbrev pub null : ℕ
null = 0

abbrev pub ata_err : ℕ
ata_err = 0x01

abbrev pub ata_drq : ℕ
ata_drq = 0x08

abbrev pub ata_df : ℕ
ata_df = 0x20

pub record AtaDevice : Type 0 where
  pub base_register : ℕ
  pub device_id : ℕ
  pub flags : ℕ
  pub next_device : ℕ

-- What the driver uses of the machine, whose state is `S`: reading a byte and a 16-bit word from a
-- port, writing a byte, and allocating.
pub record Machine (S : Type 0) : Type 0 where
  pub outb : (value port : ℕ) → S → S
  pub inb : (port : ℕ) → S → ℕ × S
  pub inw : (port : ℕ) → S → ℕ × S
  pub kalloc : (size : ℕ) → S → ℕ × S

-- The structures by their addresses, `ata_device_list`, the bytes of memory, the console and the
-- machine.
pub record Ata (S : Type 0) : Type 0 where
  pub device : ℕ → AtaDevice
  pub device_list : ℕ
  pub byte : ℕ → ℕ
  pub console : Console
  pub rest : S

-- The writes `(value, port)` of `ata_pio_read` before it waits, in order.
unfoldable pub read_command : (device_id sector length : ℕ) → List (ℕ × ℕ)
read_command device_id sector length =
    (0x00, 0x1F1)
    ∷ (u8 (length >>> 9), 0x1F2)
    ∷ (bit_and sector 0xFF, 0x1F3)
    ∷ (bit_and (sector >>> 8) 0xFF, 0x1F4)
    ∷ (bit_and (sector >>> 8) 0xFF, 0x1F5)
    ∷ (u8 (bit_or (bit_or 0xE0 (device_id <<< 4)) (bit_and (sector >>> 24) 0x0F)), 0x1F6)
    ∷ (0xE0, 0x1F6)
    ∷ (0x20, 0x1F7)
    ∷ []

-- The writes of `ata_get_device_info` to the controller at `base`.
unfoldable pub identify_command : (base device_id : ℕ) → List (ℕ × ℕ)
identify_command base device_id =
    (0, base + 0x01)
    ∷ (0, base + 0x02)
    ∷ (0, base + 0x03)
    ∷ (0, base + 0x04)
    ∷ (0, base + 0x05)
    ∷ (u8 (device_id <<< 4), base + 0x06)
    ∷ (0xEC, base + 0x07)
    ∷ []

module _ {S : Type 0} (machine : Machine S) where
  open machine use {outb, inb, inw, kalloc}

  -- A sequence of `outb`.
  unfoldable pub out_all : List (ℕ × ℕ) → S → S
  out_all [] m = m
  out_all ((value, port) ∷ writes) m = out_all writes (outb value port m)

  unfoldable pub register_ata_device : (base_register device_id : ℕ) → Ata S → ℕ × Ata S
  register_ata_device base_register device_id s =
      let (p, m) = kalloc 12 s.rest in
      (
        p,
        record s {
          device = update s.device p (record (s.device p) {
            base_register = base_register;
            device_id = device_id;
            next_device = s.device_list;
          });
          device_list = p;
          rest = m;
        },
      )

  -- `outb(select, base_register + 6); if(inb(base_register + 7) & 0x40) register_ata_device(...);`
  unfoldable pub probe_drive : (base_register select device_id : ℕ) → Ata S → Ata S
  unfolding register_ata_device
  probe_drive base_register select device_id s =
      let (status, m) = inb (base_register + 7) (outb select (base_register + 6) s.rest) in
      if bit_and status 0x40 == 0
      then record s { rest = m }
      else (register_ata_device base_register device_id (record s { rest = m })).1

  unfoldable pub setup_ata_controller : (base_register : ℕ) → Ata S → Ata S
  unfolding probe_drive
  setup_ata_controller base_register s =
      let (echo, m) = inb (base_register + 3) (outb 0xBA (base_register + 3) s.rest) in
      let n = record s { rest = m } in
      if echo == 0xBA
      then probe_drive base_register 0xB0 1 (probe_drive base_register 0xA0 0 n)
      else n

  -- The loop over the list of devices, whose body is empty; `none` means that the fuel ran out.
  unfoldable pub list_loop : (fuel tmp : ℕ) → Ata S → Option (Ata S)
  list_loop zero tmp s = none
  list_loop (suc fuel) tmp s =
      let rest = list_loop fuel (s.device tmp).next_device s in if tmp == null then some s else rest

  unfoldable pub setup_ata_devices : (fuel : ℕ) → Ata S → Option (Ata S)
  unfolding setup_ata_controller list_loop
  setup_ata_devices fuel s =
      let n = setup_ata_controller 0x170 (setup_ata_controller 0x1F0 s) in
      list_loop fuel n.device_list n

  -- `while(!(status & 0x08)) status = inb(0x1F7);`
  unfoldable pub drq_loop : (fuel status : ℕ) → S → Option S
  drq_loop zero status m = none
  drq_loop (suc fuel) status m =
      let (next, n) = inb 0x1F7 m in
      let rest = drq_loop fuel next n in if bit_and status ata_drq == 0 then rest else some m

  -- One word from the data port; `low` and `high` are the offsets of its bytes in the buffer.
  unfoldable pub read_word : (low high : ℕ) → Ata S → Ata S
  read_word low high s =
      let (tmp, m) = inw 0x1F0 s.rest in
      record s {
        byte = update (update s.byte low (bit_and tmp 0xFF)) high (bit_and (tmp >>> 8) 0xFF);
        rest = m;
      }

  -- The bytes of each word are swapped, as the identification of a device has them.
  unfoldable pub ata_get_device_info : (fuel device buffer : ℕ) → Ata S → Option (Ata S)
  unfolding out_all drq_loop identify_command read_word upto
  ata_get_device_info fuel device buffer s = do
    let d = s.device device
    let (status, m) = inb 0x1F7 (out_all (identify_command d.base_register d.device_id) s.rest)
    n ← drq_loop fuel status m
    some (upto 256 (λ i. read_word (buffer + i * 2 + 1) (buffer + i * 2)) (record s { rest = n }))

  -- `n` words to the buffer.
  unfoldable pub transfer : (n buffer : ℕ) → Ata S → Ata S
  unfolding read_word upto
  transfer n buffer s = upto n (λ i. read_word (buffer + i * 2) (buffer + i * 2 + 1)) s

  -- What is printed when the status has an error.
  unfoldable pub report_status : (fuel status : ℕ) → Console → Option Console
  report_status fuel status c = do
    c₁ ← kc_print_string fuel (codes "Warning: error bit set or device fault\n") c
    c₂ ← kc_print_string fuel (codes " Status: ") c₁
    c₃ ← kc_print_hex status c₂
    kc_print_string fuel (codes "\n") c₃

  -- `ata_pio_read`; its last loop has an empty body. `rounds` is the fuel for tabs.
  unfoldable pub ata_pio_read :
      (rounds fuel device buffer sector length : ℕ) → Ata S → Option (Ata S)
  unfolding out_all read_command report_status drq_loop transfer
  ata_pio_read rounds fuel device buffer sector length s = do
    let (status, m) =
        inb 0x1F7 (out_all (read_command (s.device device).device_id sector length) s.rest)
    let failed = not (bit_and status ata_err == 0) || not (bit_and status ata_df == 0)
    c ← if failed then report_status rounds status s.console else some s.console
    n ← drq_loop fuel status m
    some (transfer (length / 2) buffer (record s { console = c; rest = n }))

  -- The number of the device is not used: the device at the head of the list is read.
  unfoldable pub ata_read : (rounds fuel device buffer sector length : ℕ) → Ata S → Option (Ata S)
  unfolding ata_pio_read
  ata_read rounds fuel device buffer sector length s =
      ata_pio_read rounds fuel s.device_list buffer sector length s
