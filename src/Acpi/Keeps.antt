-- ===== src/Acpi/Keeps.antt =====
-- `acpi_init` of kernel/src/firmware/acpi/impl/acpi.c returns, and changes no memory but the frame
-- buffer.
use kess_os_paranoid_edition.Base.{
  ℕ, zero, suc, ◌+◌, ◌%◌, ◌≡◌, refl, arith, bit_and, ◌==◌, Bool-cases, inl, inr, some, bit_or,
  if◌then◌else◌, true, ◌/◌, bit_and_frame, bit_and_digit,
}
use kess_os_paranoid_edition.Log.{message, info, warning, critical}
use kess_os_paranoid_edition.Memory.{Memory}
use kess_os_paranoid_edition.Outcome.{Outcome, done, Cmd, and_then, ◌>>=◌, ◌>>◌, read}
use kess_os_paranoid_edition.Pit.{using_apic, using_acpi}
use kess_os_paranoid_edition.Screen.{Framebuffer, Font}
use kess_os_paranoid_edition.Screen.Room.{Agrees, Agrees-trans, IsScreen}
use kess_os_paranoid_edition.Strings.{strncmp}
use kess_os_paranoid_edition.Kernel.Drawing.{IsReady, lesser, after_log, last_log}
use kess_os_paranoid_edition.Acpi.{
  Acpi, log, redrawn, rsdt_addr, sum_loop, header_length, rsdt_entry_count, table_at, verify_rsdt,
  madt_loop, find_madt, use_rsdt, acpi_init,
}

-- Bit 1 is off once it is cleared.
pub cleared : (flags : ℕ) → bit_and (bit_and flags 0xFD) using_acpi ≡ 0
cleared flags = omega (
  arith,
  bit_and_frame 1 1 (bit_and flags 0xFD),
  bit_and_digit flags 0xFD,
  bit_and_digit (flags / 2) 126,
)

module _ (apic : ℕ) where
  -- The end of `use_rsdt`, where the checksum is right.
  abbrev pub searching : Cmd Acpi (Unit {0})
  searching = do
    log (message "RSDT checksum valid!\n" info)
    log (message "Locating MADT..\n" info)
    find_madt apic
    log (message "ACPI setup finished!\n" info)

  -- `use_rsdt` behind its two calls of `log`.
  abbrev pub verifying : Cmd Acpi (Unit {0})
  verifying = do
    verify_rsdt
    flags ← read (λ s. s.kern_flags)
    if bit_and flags using_acpi == 0 then done tt else searching

  abbrev acting : Cmd Acpi (Unit {0})
  acting = do
    flags ← read (λ s. s.kern_flags)
    if bit_and flags using_acpi == 0 then done tt else searching

module _ (fb : Framebuffer) (screen : IsScreen fb) (face : Font) where
  -- The longest line, which has no newline, is shorter.
  abbrev pub last_column : ℕ
  last_column = 80

  -- The command has returned, with the frame buffer alone changed, and lines left.
  pub data Keeps (lines col : ℕ) (m : Memory) : Outcome Acpi (Unit {0}) → Type 0 where
    keeps :
        {t : Acpi}
        → Agrees fb m t.mem
        → IsReady fb face lines col t.terminal
        → Keeps lines col m (done tt t)

  onwards :
      {lines col last right : ℕ} {m : Memory} {o : Outcome Acpi (Unit {0})}
      (k : Unit {0} → Cmd Acpi (Unit {0}))
      → Keeps lines col m o
      → ((t : Acpi)
          → Agrees fb m t.mem
          → IsReady fb face lines col t.terminal
          → Keeps last right m (k tt t))
      → Keeps last right m (and_then o k)
  onwards k (keeps same ready) rest = rest _ same ready

  module _ (apic : ℕ) (m : Memory) where
    -- The flags and the tables do not matter here.
    madt_loop-Keeps :
        (lines left i : ℕ) (s : Acpi)
        → Agrees fb m s.mem
        → IsReady fb face (2 + lines) 0 s.terminal
        → Keeps (1 + lines) 0 m (madt_loop apic left i s)
    unfolding madt_loop
    madt_loop-Keeps lines zero i s same ready =
        keeps same (lesser fb face (omega arith) (omega arith) ready)
    madt_loop-Keeps lines (suc left) i s same ready =
        elim (Bool-cases (strncmp (table_at s.mem s.rsdt i) apic 4 s.mem)) [
          | inl hit ↦
              let found : Acpi = record s {
                apic_madt = some (table_at s.mem s.rsdt i);
                kern_flags = bit_or s.kern_flags using_apic;
              } in
              rw hit (
                last_log fb screen face (message "MADT found!\n" info) (2 + lines) (1 + lines) 0
                  s.mem s.terminal refl refl (omega arith) ready (Keeps (1 + lines) 0 m) found
                  (redrawn found) λ m' t' drawn ready'. keeps (Agrees-trans fb same drawn) ready')
          | inr miss ↦ rw miss (madt_loop-Keeps lines left (i + 1) s same ready)
        ]

    find_madt-Keeps :
        (lines : ℕ) (s : Acpi)
        → Agrees fb m s.mem
        → IsReady fb face (2 + lines) 0 s.terminal
        → Keeps lines 0 m (find_madt apic s)
    unfolding find_madt
    find_madt-Keeps lines s same ready =
        onwards _ (madt_loop-Keeps lines (rsdt_entry_count s.mem s.rsdt) 0 s same ready)
          λ t same1 ready1. elim (Bool-cases (bit_and t.kern_flags using_apic == 0)) [
            | inl off ↦ rw off (
                last_log fb screen face
                  (message "MADT not found, continuing without APIC.\n" warning) (1 + lines) lines 0
                  t.mem t.terminal refl refl (omega arith) ready1 (Keeps lines 0 m) t (redrawn t)
                  λ m' t' drawn ready'. keeps (Agrees-trans fb same1 drawn) ready')
            | inr on ↦ rw on (keeps same1 (lesser fb face (omega arith) (omega arith) ready1))
          ]

    searching-Keeps :
        (lines : ℕ) (s : Acpi)
        → Agrees fb m s.mem
        → IsReady fb face (5 + lines) 0 s.terminal
        → Keeps lines 0 m (searching apic s)
    searching-Keeps lines s same ready =
        after_log fb screen face (message "RSDT checksum valid!\n" info) (5 + lines) (4 + lines) 0
          s.mem s.terminal refl refl (omega arith) ready (Keeps lines 0 m) s (redrawn s) _
          λ m1 t1 same1 ready1.
            after_log fb screen face (message "Locating MADT..\n" info) (4 + lines) (3 + lines) 0 m1
              t1 refl refl (omega arith) ready1 (Keeps lines 0 m) (redrawn s m1 t1) (redrawn s) _
              λ m2 t2 same2 ready2.
                onwards _
                  (find_madt-Keeps (1 + lines) (redrawn s m2 t2)
                    (Agrees-trans fb same (Agrees-trans fb same1 same2))
                    (lesser fb face (omega arith) (omega arith) ready2))
                  λ u same3 ready3.
                    last_log fb screen face (message "ACPI setup finished!\n" info) (1 + lines)
                      lines 0 u.mem u.terminal refl refl (omega arith) ready3 (Keeps lines 0 m) u
                      (redrawn u) λ m' t' drawn ready'. keeps (Agrees-trans fb same3 drawn) ready'

    leftwards :
        {lines : ℕ} {o : Outcome Acpi (Unit {0})} → Keeps lines 0 m o → Keeps lines last_column m o
    leftwards (keeps same ready) = keeps same (lesser fb face (omega arith) (omega arith) ready)

    verifying-Keeps :
        (lines : ℕ) (s : Acpi)
        → Agrees fb m s.mem
        → IsReady fb face (5 + lines) 0 s.terminal
        → Keeps lines last_column m (verifying apic s)
    unfolding verify_rsdt
    verifying-Keeps lines s same ready =
        elim (Bool-cases (sum_loop (header_length s.mem s.rsdt) s.mem s.rsdt 0 0 % 0x100 == 0)) [
          | inl valid ↦ rw valid (elim (Bool-cases (bit_and s.kern_flags using_acpi == 0)) [
            | inl off ↦ rw off (keeps same (lesser fb face (omega arith) (omega arith) ready))
            | inr on ↦ rw on (leftwards (searching-Keeps lines s same ready))
          ])
          | inr invalid ↦
              let off : bit_and (bit_and s.kern_flags 0xFD) using_acpi == 0 ≡ true =
                ground (arith, cleared s.kern_flags) in
              rw invalid (
                after_log fb screen face
                  (message "RSDT checksum invalid, system halted. (Continuing without ACPI)."
                    critical)
                  (5 + lines) lines 0 s.mem s.terminal refl refl (omega arith) ready
                  (λ o. Keeps lines last_column m (and_then o (λ _. acting apic))) s (redrawn s) _
                  λ m1 t1 same1 ready1. rw off (
                    keeps (Agrees-trans fb same same1)
                      (lesser fb face (omega arith) (omega arith) ready1)))
        ]

    use_rsdt-Keeps :
        (lines rsdp : ℕ) (s : Acpi)
        → Agrees fb m s.mem
        → IsReady fb face (7 + lines) 0 s.terminal
        → Keeps lines last_column m (use_rsdt apic rsdp s)
    unfolding use_rsdt
    use_rsdt-Keeps lines rsdp s same ready =
        after_log fb screen face (message "RSDP signature is valid.\n" info) (7 + lines) (6 + lines)
          0 s.mem s.terminal refl refl (omega arith) ready (Keeps lines last_column m) s (redrawn s)
          _
          λ m1 t1 same1 ready1.
            let rooted : Acpi = record s { rsdt = rsdt_addr m1 rsdp } in
            after_log fb screen face (message "Veriying RSDT checksum..\n" info) (6 + lines)
              (5 + lines) 0 m1 t1 refl refl (omega arith) ready1 (Keeps lines last_column m)
              (redrawn rooted m1 t1) (redrawn rooted) _
              λ m2 t2 same2 ready2.
                verifying-Keeps lines (redrawn rooted m2 t2)
                  (Agrees-trans fb same (Agrees-trans fb same1 same2)) ready2

  -- On a frame buffer that ends within the address space, acpi_init from any state with eight
  -- lines left below the cursor returns, whatever the tables hold: it has changed no byte outside
  -- the frame buffer, left the other lines below the cursor, and the cursor at most 80 columns
  -- from the left margin.
  pub acpi_init-Keeps :
      (apic rsdp_signature rsdp lines : ℕ) (s : Acpi)
      → IsReady fb face (8 + lines) 0 s.terminal
      → Keeps lines last_column s.mem (acpi_init apic rsdp_signature rsdp s)
  unfolding acpi_init
  acpi_init-Keeps apic rsdp_signature rsdp lines s ready =
      after_log fb screen face (message "Verifying RSDP signature..\n" info) (8 + lines) (7 + lines)
        0 s.mem s.terminal refl refl (omega arith) ready (Keeps lines last_column s.mem) s
        (redrawn s) _
        λ m1 t1 same1 ready1. elim (Bool-cases (strncmp rsdp rsdp_signature 7 m1)) [
          | inl signed ↦
              rw signed (use_rsdt-Keeps apic s.mem lines rsdp (redrawn s m1 t1) same1 ready1)
          | inr unsigned ↦ rw unsigned (
              after_log fb screen face
                (message "RSDP is invalid, signature does not match! (Continuing without ACPI).\n"
                  critical)
                (7 + lines) (6 + lines) 0 m1 t1 refl refl (omega arith) ready1
                (Keeps lines last_column s.mem) (redrawn s m1 t1) (redrawn s) _
                λ m2 t2 same2 ready2.
                  keeps (Agrees-trans fb same1 same2)
                    (lesser fb face (omega arith) (omega arith) ready2))
        ]
