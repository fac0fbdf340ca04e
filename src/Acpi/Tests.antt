-- ===== src/Acpi/Tests.antt =====
-- Tests of kernel/src/firmware/acpi on a small set of tables.
use kess_os_paranoid_edition.Base.{
  ℕ, zero, suc, ◌+◌, ◌<◌, ◌≡◌, inl, refl, arith, ◌==◌, if◌then◌else◌, none, some, Option, List, [],
  ◌∷◌,
}
use kess_os_paranoid_edition.Log.{codes}
use kess_os_paranoid_edition.Memory.{Memory, load32}
use kess_os_paranoid_edition.Outcome.{Outcome, done}
use kess_os_paranoid_edition.Kernel.Console.{log}
use kess_os_paranoid_edition.Screen.{kwrite}
use kess_os_paranoid_edition.Screen.Glyph.{IsOutside}
use kess_os_paranoid_edition.Vmm.Tests.{lfb, font, terminal, lfb-IsScreen, lfb-IsReady}
use kess_os_paranoid_edition.Acpi.{Acpi, acpi_init, header_length, rsdt_addr, table_at}
use kess_os_paranoid_edition.Acpi.Apart.{IsTablesApart}
use kess_os_paranoid_edition.Strings.{strncmp, strncmp_loop}
use kess_os_paranoid_edition.Acpi.Keeps.{Keeps, acpi_init-Keeps}
use kess_os_paranoid_edition.Acpi.Setup.{IsSetUp, acpi_init-IsSetUp}

abbrev put : ℕ → List ℕ → Memory → Memory
put p [] m = m
put p (c ∷ cs) m = put (p + 1) cs (λ q. if q == p then c else m q)

-- The literals at 16 and 32, the RSDP at 256 and the RSDT at 512, which has the FADT at 768 and the
-- MADT at 1024.
abbrev tables : Memory
tables = put 16 (codes "RSD PTR") (
    put 32 (codes "APIC") (
      put 256 (codes "RSD PTR ") (
        put 272 (0 ∷ 2 ∷ []) (
          put 512 (codes "RSDT") (
            put 516 (44 ∷ 0 ∷ 0 ∷ 0 ∷ 1 ∷ 143 ∷ []) (
              put 548 (0 ∷ 3 ∷ 0 ∷ 0 ∷ 0 ∷ 4 ∷ [])
                (put 768 (codes "FACP") (put 1024 (codes "APIC") (λ q. 0)))))))))

abbrev at_boot : Acpi
at_boot = record { mem = tables; rsdt = 0; apic_madt = none; kern_flags = 2; terminal = terminal }

flags : Outcome Acpi (Unit {0}) → ℕ × Option ℕ
flags (done _ s) = (s.kern_flags, s.apic_madt)
flags _ = (0, none)

-- With the tables, without the signature, and with a wrong checksum.
found :
    (flags (acpi_init 32 16 256 at_boot) ≡ (3, some 1024))
    × (flags (acpi_init 32 16 257 at_boot) ≡ (0, none))
    × (flags (acpi_init 32 16 256 (record at_boot { mem = put 530 (5 ∷ []) tables })) ≡ (0, none))
unfolding flags acpi_init strncmp strncmp_loop load32 log kwrite
found = (refl, refl, refl)

tables-IsTablesApart : IsTablesApart lfb 32 16 256 tables
unfolding header_length rsdt_addr table_at load32
tables-IsTablesApart = record {
  apic = λ k h. inl (omega arith);
  signature = λ k h. inl (omega arith);
  pointer = λ k h. inl (omega arith);
  table = λ k h. inl (omega arith);
  listed = listed;
}
  where
    listed : (j k : ℕ) → j < 2 → k < 4 → IsOutside lfb (table_at tables 512 j + k)
    listed zero k h l = inl (omega arith)
    listed (suc zero) k h l = inl (omega arith)
    listed (suc (suc j)) k h l = absurd (omega arith)

acpi_init-IsSetUp_example : IsSetUp 32 16 256 at_boot (acpi_init 32 16 256 at_boot)
unfolding header_length rsdt_addr load32
acpi_init-IsSetUp_example =
    acpi_init-IsSetUp 32 16 256 at_boot lfb lfb-IsScreen font 18 (λ e. omega (arith, e))
      (omega arith) (omega arith) tables-IsTablesApart lfb-IsReady

acpi_init-Keeps_example :
    Keeps lfb lfb-IsScreen font 15 80 at_boot.mem (acpi_init 32 16 256 at_boot)
acpi_init-Keeps_example = acpi_init-Keeps lfb lfb-IsScreen font 32 16 256 15 at_boot lfb-IsReady
