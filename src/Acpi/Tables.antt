-- ===== src/Acpi/Tables.antt =====
-- The structs of kernel/src/firmware/acpi/tables.h, all of them packed, and what
-- kernel/src/firmware/acpi/impl/acpi.c reads of them.
use kess_os_paranoid_edition.Base.{ℕ, ◌+◌, ◌*◌, ◌≡◌, refl, true, [], ◌∷◌}
use kess_os_paranoid_edition.Memory.{Memory, load32}
use kess_os_paranoid_edition.Layout.{
  Struct, uint8, uint16, uint32, uint64, array, nested, size_of, offset_of, field,
}
use kess_os_paranoid_edition.Acpi.{rsdt_addr, header_length, header_size, table_at}

unfoldable pub acpi_rsdp : Struct
acpi_rsdp = record {
  packed = true;
  fields =
      ("signature", array 8 uint8)
      ∷ ("checksum", uint8)
      ∷ ("OEMID", array 6 uint8)
      ∷ ("rev", uint8)
      ∷ ("rsdtaddr", uint32)
      ∷ [];
}

unfoldable pub acpi_rsdp2 : Struct
unfolding nested
acpi_rsdp2 = record {
  packed = true;
  fields =
      ("rsdp1", nested acpi_rsdp)
      ∷ ("length", uint32)
      ∷ ("xsdtAddr", uint64)
      ∷ ("extendedChecksum", uint8)
      ∷ ("reserved", array 3 uint8)
      ∷ [];
}

unfoldable pub acpi_xsdp : Struct
acpi_xsdp = record {
  packed = true;
  fields =
      ("signature", array 8 uint8)
      ∷ ("checksum", uint8)
      ∷ ("oem", array 6 uint8)
      ∷ ("rev", uint8)
      ∷ ("rsdt", uint32)
      ∷ ("length", uint32)
      ∷ ("xsdt", uint64)
      ∷ ("extended_checksum", uint8)
      ∷ [];
}

unfoldable pub acpi_header : Struct
acpi_header = record {
  packed = true;
  fields =
      ("signature", array 4 uint8)
      ∷ ("length", uint32)
      ∷ ("revision", uint8)
      ∷ ("checksum", uint8)
      ∷ ("oem", array 6 uint8)
      ∷ ("oem_table", array 8 uint8)
      ∷ ("oem_revision", uint32)
      ∷ ("creator_id", uint32)
      ∷ ("creator_revision", uint32)
      ∷ [];
}

unfoldable pub acpi_rsdt : Struct
unfolding nested
acpi_rsdt = record {
  packed = true;
  fields = ("header", nested acpi_header) ∷ ("tables", array 0 uint32) ∷ [];
}

unfoldable pub acpi_xsdt : Struct
unfolding nested
acpi_xsdt = record {
  packed = true;
  fields = ("header", nested acpi_header) ∷ ("tables", array 0 uint64) ∷ [];
}

unfoldable pub acpi_gas : Struct
acpi_gas = record {
  packed = true;
  fields =
      ("address_space", uint8)
      ∷ ("bit_width", uint8)
      ∷ ("bit_offset", uint8)
      ∷ ("access_size", uint8)
      ∷ ("base", uint64)
      ∷ [];
}

unfoldable pub acpi_fadt : Struct
unfolding nested
acpi_fadt = record {
  packed = true;
  fields =
      ("header", nested acpi_header)
      ∷ ("firmware_control", uint32)
      ∷ ("dsdt", uint32)
      ∷ ("reserved", uint8)
      ∷ ("profile", uint8)
      ∷ ("sci_irq", uint16)
      ∷ ("smi_command_port", uint32)
      ∷ ("acpi_enable", uint8)
      ∷ ("acpi_disable", uint8)
      ∷ ("s4bios_req", uint8)
      ∷ ("pstate_control", uint8)
      ∷ ("pm1a_event_block", uint32)
      ∷ ("pm1b_event_block", uint32)
      ∷ ("pm1a_control_block", uint32)
      ∷ ("pm1b_control_block", uint32)
      ∷ ("pm2_control_block", uint32)
      ∷ ("pm_timer_block", uint32)
      ∷ ("gpe0_block", uint32)
      ∷ ("gpe1_block", uint32)
      ∷ ("pm1_event_length", uint8)
      ∷ ("pm1_control_length", uint8)
      ∷ ("pm2_control_length", uint8)
      ∷ ("pm_timer_length", uint8)
      ∷ ("gpe0_length", uint8)
      ∷ ("gpe1_length", uint8)
      ∷ ("gpe1_base", uint8)
      ∷ ("cstate_control", uint8)
      ∷ ("worst_c2_latency", uint16)
      ∷ ("worst_c3_latency", uint16)
      ∷ ("flush_size", uint16)
      ∷ ("flush_stride", uint16)
      ∷ ("duty_offset", uint8)
      ∷ ("duty_width", uint8)
      ∷ ("day_alarm", uint8)
      ∷ ("month_alarm", uint8)
      ∷ ("century", uint8)
      ∷ ("iapc_boot_flags", uint16)
      ∷ ("reserved2", uint8)
      ∷ ("flags", uint32)
      ∷ ("reset_register", nested acpi_gas)
      ∷ ("reset_command", uint8)
      ∷ ("arm_boot_flags", uint16)
      ∷ ("minor_version", uint8)
      ∷ ("x_firmware_control", uint64)
      ∷ ("x_dsdt", uint64)
      ∷ ("x_pm1a_event_block", nested acpi_gas)
      ∷ ("x_pm1b_event_block", nested acpi_gas)
      ∷ ("x_pm1a_control_block", nested acpi_gas)
      ∷ ("x_pm1b_control_block", nested acpi_gas)
      ∷ ("x_pm2_control_block", nested acpi_gas)
      ∷ ("x_pm_timer_block", nested acpi_gas)
      ∷ ("x_gpe0_block", nested acpi_gas)
      ∷ ("x_gpe1_block", nested acpi_gas)
      ∷ [];
}

unfoldable pub acpi_ecdt : Struct
unfolding nested
acpi_ecdt = record {
  packed = true;
  fields =
      ("header", nested acpi_header)
      ∷ ("ec_control", nested acpi_gas)
      ∷ ("ec_data", nested acpi_gas)
      ∷ ("uid", uint32)
      ∷ ("gpe_bit", uint8)
      ∷ ("ec_id", array 0 uint8)
      ∷ [];
}

unfoldable pub acpi_aml : Struct
unfolding nested
acpi_aml = record {
  packed = true;
  fields = ("header", nested acpi_header) ∷ ("data", array 0 uint8) ∷ [];
}

unfoldable pub acpi_madt : Struct
unfolding nested
acpi_madt = record {
  packed = true;
  fields = ("header", nested acpi_header) ∷ ("lapic_addr", uint32) ∷ ("flags", uint32) ∷ [];
}

-- What the model reads is the field of the struct, also behind an RSDP of version 2, and the tables
-- that are read have the sizes that ACPI gives them.
pub record IsLaidOut (m : Memory) (p i : ℕ) : Type 0 where
  pub rsdt : rsdt_addr m p ≡ field acpi_rsdp "rsdtaddr" m p
  pub rsdp2 : offset_of acpi_rsdp2 "rsdp1" ≡ 0
  pub length : header_length m p ≡ field acpi_header "length" m p
  pub header : header_size ≡ size_of acpi_header
  pub table : table_at m p i ≡ load32 m (p + offset_of acpi_rsdt "tables" + 4 * i)
  pub rsdp_size : size_of acpi_rsdp ≡ 20
  pub rsdp2_size : size_of acpi_rsdp2 ≡ 36
  pub gas_size : size_of acpi_gas ≡ 12
  pub fadt_size : size_of acpi_fadt ≡ 244
  pub madt_size : size_of acpi_madt ≡ 44
  pub ecdt_id : offset_of acpi_ecdt "ec_id" ≡ 65

-- For any memory and address, the RSDT address, the length of a header and an entry of the RSDT
-- are read where the packed structs have those fields, also in an RSDP of version 2, and the RSDP
-- of both versions, the GAS, the FADT and the MADT have the sizes that ACPI gives them, and the
-- ECDT its id at 65.
pub acpi_lem : (m : Memory) (p i : ℕ) → IsLaidOut m p i
unfolding rsdt_addr header_length table_at field size_of offset_of acpi_rsdp acpi_rsdp2 acpi_header
    acpi_rsdt acpi_gas acpi_fadt acpi_madt acpi_ecdt
acpi_lem m p i = record {
  rsdt = refl;
  rsdp2 = refl;
  length = refl;
  header = refl;
  table = refl;
  rsdp_size = refl;
  rsdp2_size = refl;
  gas_size = refl;
  fadt_size = refl;
  madt_size = refl;
  ecdt_id = refl;
}
