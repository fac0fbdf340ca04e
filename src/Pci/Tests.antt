-- ===== src/Pci/Tests.antt =====
-- Tests of kernel/src/arch/pci on a configuration space.
use kess_os_paranoid_edition.Base.{ℕ, refl, arith, u32, ◌==◌, if◌then◌else◌}
use kess_os_paranoid_edition.Ports.{Bus}
use kess_os_paranoid_edition.Pci.{
  pci_read_word, pci_get_vendor_id, pci_get_device_id, pci_get_revision_id, pci_get_prog_if,
  pci_get_subclass_id, pci_get_classid, pci_get_bar0, pci_get_bar1, pci_get_bar2, pci_get_bar3,
  pci_get_bar4, pci_get_bar5,
}
use kess_os_paranoid_edition.Pci.Config.{IsConfig, Reads, pci_read_word-Reads, pci_ids-Reads}
use kess_os_paranoid_edition.Pci.Bars.{pci_bars-Reads}

-- The address that is latched, and the space.
record Space : Type 0 where
  latch : ℕ
  cells : ℕ → ℕ

abbrev register : ℕ → Space → ℕ
register address s = u32 (s.cells address)

abbrev bus : Bus Space
bus = record {
  out8 = λ port v s. s;
  out16 = λ port v s. s;
  out32 = λ port v s. if port == 0xCF8 then record s { latch = v } else s;
  in8 = λ port s. (0, s);
  in16 = λ port s. (0, s);
  in32 = λ port s. (register s.latch s, s);
}

space-IsConfig : IsConfig bus register
space-IsConfig = record {
  small = λ address s. omega arith;
  selects = λ address a s. refl;
  reads = λ a s. refl;
  keeps = λ address a s. refl;
}

-- An 8086:1237 everywhere.
abbrev host : Space
host = record { latch = 0; cells = λ a. 0x12378086 }

-- The device id 0x1237 comes out as 0x7808.
pci_ids-Reads_example :
    Reads register (pci_get_vendor_id bus 0 3 1 host) 0x8086 host
    × Reads register (pci_get_device_id bus 0 3 1 host) 0x7808 host
    × Reads register (pci_get_revision_id bus 0 3 1 host) 0x86 host
    × Reads register (pci_get_prog_if bus 0 3 1 host) 0x80 host
    × Reads register (pci_get_subclass_id bus 0 3 1 host) 0x08 host
    × Reads register (pci_get_classid bus 0 3 1 host) 0x78 host
pci_ids-Reads_example =
    pci_ids-Reads 0 3 1 (omega arith) (omega arith) (omega arith) bus register space-IsConfig host

pci_read_word-Reads_example : Reads register (pci_read_word bus 2 5 0 0x3C host) 0x8086 host
pci_read_word-Reads_example =
    pci_read_word-Reads 2 5 0 (omega arith) (omega arith) (omega arith) bus register space-IsConfig
      0x3C host (omega arith)

pci_bars-Reads_example :
    Reads register (pci_get_bar0 bus 0 3 1 host) 0x78088086 host
    × Reads register (pci_get_bar1 bus 0 3 1 host) 0x78088086 host
    × Reads register (pci_get_bar2 bus 0 3 1 host) 0x78088086 host
    × Reads register (pci_get_bar3 bus 0 3 1 host) 0x78088086 host
    × Reads register (pci_get_bar4 bus 0 3 1 host) 0x78088086 host
    × Reads register (pci_get_bar5 bus 0 3 1 host) 0x78088086 host
pci_bars-Reads_example =
    pci_bars-Reads 0 3 1 (omega arith) (omega arith) (omega arith) bus register space-IsConfig host
