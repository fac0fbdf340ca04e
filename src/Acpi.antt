-- ===== src/Acpi.antt =====
-- kernel/src/firmware/acpi: the signature, the checksum and the tables that ACPI offers.
pub mod Apart
pub mod Keeps
pub mod Search
pub mod Setup
pub mod Tables
mod Tests
use kess_os_paranoid_edition.Base.{
  ℕ, zero, suc, ◌+◌, ◌-◌, ◌*◌, ◌/◌, ◌%◌, ◌^◌, bit_and, bit_or, Bool, true, false, Option, none,
  some, List, [], ◌∷◌, not, ◌==◌, ltb, if◌then◌else◌, u8, u32,
}
use kess_os_paranoid_edition.Log.{message, Status, info, critical, warning, LogCall, codes}
use kess_os_paranoid_edition.Memory.{Memory, load32}
use kess_os_paranoid_edition.Outcome.{Outcome, Cmd, done, modify, read, ◌>>=◌, ◌>>◌}
use kess_os_paranoid_edition.Kernel.Terminal.{Terminal, print}
use kess_os_paranoid_edition.Pit.{using_apic, using_acpi}
use kess_os_paranoid_edition.Strings.{strncmp}

-- The memory, the statics `rsdt` and `apic_madt`, the global `kern_flags`, and what `log` uses.
pub record Acpi : Type 0 where
  pub mem : Memory
  pub rsdt : ℕ
  pub apic_madt : Option ℕ
  pub kern_flags : ℕ
  pub terminal : Terminal

-- The fields of the packed structs that are read: `rsdtaddr` of acpi_rsdp_t, `length` of
-- acpi_header_t, whose size is 36, and `tables` behind it in acpi_rsdt_t.
unfoldable pub rsdt_addr : Memory → ℕ → ℕ
rsdt_addr m rsdp = load32 m (rsdp + 16)

unfoldable pub header_length : Memory → ℕ → ℕ
header_length m table = load32 m (table + 4)

abbrev pub header_size : ℕ
header_size = 36

unfoldable pub table_at : Memory → ℕ → ℕ → ℕ
table_at m rsdt i = load32 m (rsdt + header_size + 4 * i)

-- The state with text drawn.
abbrev pub redrawn : Acpi → Memory → Terminal → Acpi
redrawn s m t = record s { mem = m; terminal = t }

abbrev pub log : LogCall → Cmd Acpi (Unit {0})
log call s = print call s.mem s.terminal s (redrawn s)

-- `kern_flags &= ~bit` and `kern_flags |= bit` of a byte.
abbrev pub clear_flag : ℕ → Cmd Acpi (Unit {0})
clear_flag bit = modify λ s. record s { kern_flags = bit_and s.kern_flags (255 - bit) }

abbrev pub set_flag : ℕ → Cmd Acpi (Unit {0})
set_flag bit = modify λ s. record s { kern_flags = bit_or s.kern_flags bit }

-- The loop of `verify_rsdt` at byte `i`, with `left` bytes to go.
unfoldable pub sum_loop : ℕ → Memory → ℕ → ℕ → ℕ → ℕ
sum_loop zero m rsdt i sum = sum
sum_loop (suc left) m rsdt i sum = sum_loop left m rsdt (i + 1) (u8 (sum + m (rsdt + i)))

unfoldable pub verify_rsdt : Cmd Acpi (Unit {0})
unfolding sum_loop header_length
verify_rsdt s =
    (if not (sum_loop (header_length s.mem s.rsdt) s.mem s.rsdt 0 0 % 0x100 == 0)
        then (log
              (message "RSDT checksum invalid, system halted. (Continuing without ACPI)." critical)
            >> clear_flag using_acpi)
        else done tt)
      s

-- The length is 32 bits, `sizeof` is 64: the difference wraps at 64 bits and the result is cut to
-- 32.
unfoldable pub rsdt_entry_count : Memory → ℕ → ℕ
unfolding header_length
rsdt_entry_count m rsdt = u32 ((header_length m rsdt + (2 ^ 64 - header_size)) % 2 ^ 64 / 4)

-- The literals of the signatures lie where the linker has put them.
module _ (apic_signature : ℕ) where
  -- The loop of `find_madt` at entry `i`, with `left` entries to go.
  unfoldable pub madt_loop : ℕ → ℕ → Cmd Acpi (Unit {0})
  unfolding table_at
  madt_loop zero i s = done tt s
  madt_loop (suc left) i s =
      let current = table_at s.mem s.rsdt i in
      let rest = madt_loop left (i + 1) s in
      if strncmp current apic_signature 4 s.mem
      then (modify (λ s. record s { apic_madt = some current })
            >> set_flag using_apic
            >> log (message "MADT found!\n" info))
          s
      else rest

  unfoldable pub find_madt : Cmd Acpi (Unit {0})
  unfolding madt_loop rsdt_entry_count
  find_madt = do
    count ← read (λ s. rsdt_entry_count s.mem s.rsdt)
    madt_loop count 0
    flags ← read (λ s. s.kern_flags)
    if bit_and flags using_apic == 0
        then log (message "MADT not found, continuing without APIC.\n" warning)
        else done tt

  -- The body of `acpi_init` behind the check of the signature.
  unfoldable pub use_rsdt : ℕ → Cmd Acpi (Unit {0})
  unfolding verify_rsdt find_madt rsdt_addr
  use_rsdt rsdp = do
    log (message "RSDP signature is valid.\n" info)
    modify (λ s. record s { rsdt = rsdt_addr s.mem rsdp })
    log (message "Veriying RSDT checksum..\n" info)
    verify_rsdt
    flags ← read (λ s. s.kern_flags)
    if bit_and flags using_acpi == 0 then done tt else (do
      log (message "RSDT checksum valid!\n" info)
      log (message "Locating MADT..\n" info)
      find_madt
      log (message "ACPI setup finished!\n" info))

  unfoldable pub acpi_init : ℕ → ℕ → Cmd Acpi (Unit {0})
  unfolding use_rsdt
  acpi_init rsdp_signature rsdp = do
    log (message "Verifying RSDP signature..\n" info)
    valid ← read (λ s. strncmp rsdp rsdp_signature 7 s.mem)
    if not valid
        then (log (
              message "RSDP is invalid, signature does not match! (Continuing without ACPI).\n"
                critical)
            >> clear_flag using_acpi)
        else use_rsdt rsdp
