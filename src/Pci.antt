-- ===== src/Pci.antt =====
-- Reading the configuration space of the PCI bus in src/kernel/pci.cpp.
pub mod Address
mod Examples
use klos.Base.{
  ℕ, zero, suc, ◌*◌, ◌||◌, Option, some, List, [], ◌∷◌, ◌==◌, if◌then◌else◌, bit_and, bit_or, u32,
  ◌<<<◌, ◌>>>◌, ◌>>=◌,
}
use klos.Base.Text.{codes}
use klos.Console.{Console, number, kc_print_string, kc_printf}

-- The address that is written to the port 0xCF8.
unfoldable pub pci_address : (bus device function offset : ℕ) → ℕ
pci_address bus device function offset =
    bit_or
      (bit_or (bit_or (bit_or (u32 (bus <<< 16)) (device <<< 11)) (function <<< 8))
        (bit_and offset 0xFC))
      0x80000000

-- `pci_read_word`, where `config` answers a read of the port 0xCFC after that write.
unfoldable pub pci_read_word : (config : ℕ → ℕ) → (bus device function offset : ℕ) → ℕ
unfolding pci_address
pci_read_word config bus device function offset =
    bit_and (config (pci_address bus device function offset) >>> (bit_and offset 0x02 * 0x08))
      0xFFFF

module _ (config : ℕ → ℕ) (rounds : ℕ) where
  -- The line for a device, if there is one.
  unfoldable pub print_device : (bus device : ℕ) → Console → Option Console
  unfolding pci_read_word
  print_device bus device c =
      let vendor = pci_read_word config bus device 0 0 in
      let type = pci_read_word config bus device 0 2 in
      let cls = pci_read_word config bus device 0 10 in
      if (vendor == 0x0000) || (vendor == 0xFFFF)
      then some c
      else kc_printf rounds (codes "PCI Device (Type=%x, Vendor=%x, Class=%x)\n")
          (number type ∷ number vendor ∷ number cls ∷ []) c

  -- The first n devices of a bus.
  unfoldable pub device_loop : (bus n : ℕ) → Console → Option Console
  unfolding print_device
  device_loop bus zero c = some c
  device_loop bus (suc n) c = device_loop bus n c >>= print_device bus n

  -- The first n buses.
  unfoldable pub bus_loop : (n : ℕ) → Console → Option Console
  unfolding device_loop
  bus_loop zero c = some c
  bus_loop (suc n) c = bus_loop n c >>= device_loop n 64

  unfoldable pub print_pci_device_list : Console → Option Console
  unfolding bus_loop
  print_pci_device_list c =
      kc_print_string rounds (codes "Detecting PCI devices...\n") c
      >>= bus_loop 2
      >>= kc_printf rounds (codes "\n") []
