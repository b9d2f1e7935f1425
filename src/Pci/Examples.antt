-- ===== src/Pci/Examples.antt =====
-- The device 33 of bus 0 is the device 1 of bus 1.
use klos.Base.{◌+◌, ◌*◌, ◌/◌, ◌%◌, ◌^◌, ◌≡◌, refl, arith}
use klos.Pci.{pci_address}
use klos.Pci.Address.{bus_asked, pci_address-fields}

pci_address-fields_example :
    pci_address 0 33 0 10
    ≡ 2 ^ 31 + bus_asked 0 33 * 2 ^ 16 + 33 % 32 * 2 ^ 11 + 0 * 2 ^ 8 + 10 / 4 * 4
pci_address-fields_example =
    pci_address-fields 0 33 0 10 (omega arith) (omega arith) (omega arith) (omega arith)

next_bus : pci_address 0 33 0 10 ≡ pci_address 1 1 0 10
unfolding pci_address
next_bus = refl
