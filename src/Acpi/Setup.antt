-- ===== src/Acpi/Setup.antt =====
-- What `acpi_init` of kernel/src/firmware/acpi/impl/acpi.c leaves, on each of its ways.
use kess_os_paranoid_edition.Base.{
  ℕ, ◌+◌, ◌-◌, ◌/◌, ◌%◌, ◌^◌, ◌≤◌, ◌<◌, ◌≡◌, ◌≢◌, refl, ap, sym, ◌∙◌, arith, bit_and, bit_or, Bool,
  true, false, Bool-cases, inl, inr, some, ◌==◌, if◌then◌else◌,
}
use mathlib.Core.Path.{subst}
use kess_os_paranoid_edition.Log.{LogCall, message, info, critical, warning}
use kess_os_paranoid_edition.Memory.{Memory}
use kess_os_paranoid_edition.Outcome.{Outcome, done, and_then}
use kess_os_paranoid_edition.Pit.{using_apic, using_acpi}
use kess_os_paranoid_edition.Strings.{strncmp}
use kess_os_paranoid_edition.Screen.{Framebuffer, Font}
use kess_os_paranoid_edition.Screen.Room.{Agrees, Agrees-trans, IsScreen}
use kess_os_paranoid_edition.Kernel.Console.{is_literal}
use kess_os_paranoid_edition.Kernel.Terminal.{Terminal}
use kess_os_paranoid_edition.Kernel.Drawing.{IsReady, after_log}
use kess_os_paranoid_edition.Acpi.Apart.{
  IsTablesApart, rsdt_addr-Agrees, signature-Agrees, header_length-Agrees, byte_sum-Agrees,
  table_at-Agrees, entry-Agrees,
}
use kess_os_paranoid_edition.Acpi.Keeps.{cleared, searching, verifying}
use kess_os_paranoid_edition.Acpi.{
  Acpi, header_length, rsdt_addr, table_at, sum_loop, verify_rsdt, rsdt_entry_count, madt_loop,
  find_madt, use_rsdt, acpi_init, header_size, log, redrawn,
}
use kess_os_paranoid_edition.Acpi.Search.{
  byte_sum, checksum, rsdt_entry_count_lem, Searched, found, missed, madt_loop-Searched, log-done,
}

module _ (apic_signature : ℕ) where
  -- Whether an entry of the RSDT at `r` has the signature.
  abbrev pub IsEntry : Memory → ℕ → ℕ → Bool → Type 0
  IsEntry m r j b = strncmp (table_at m r j) apic_signature 4 m ≡ b

  -- The MADT is the first of `n` entries that has the signature, if one has it.
  pub data Located (s : Acpi) (n : ℕ) : Outcome Acpi (Unit {0}) → Type 0 where
    madt :
        {after : Acpi} (j : ℕ)
        → j < n
        → IsEntry s.mem s.rsdt j true
        → ((k : ℕ) → k < j → IsEntry s.mem s.rsdt k false)
        → after.apic_madt ≡ some (table_at s.mem s.rsdt j)
        → after.kern_flags ≡ bit_or s.kern_flags using_apic
        → Located s n (done tt after)
    no_madt :
        {after : Acpi}
        → ((k : ℕ) → k < n → IsEntry s.mem s.rsdt k false)
        → after.apic_madt ≡ s.apic_madt
        → after.kern_flags ≡ s.kern_flags
        → Located s n (done tt after)

  same_table : (s : Acpi) (j : ℕ) → table_at s.mem s.rsdt (0 + j) ≡ table_at s.mem s.rsdt j
  same_table s j = ap (λ t. table_at s.mem s.rsdt t) (omega arith)

  entry :
      (s : Acpi) (j : ℕ) (b : Bool)
      → strncmp (table_at s.mem s.rsdt (0 + j)) apic_signature 4 s.mem ≡ b
      → IsEntry s.mem s.rsdt j b
  entry s j b h = ap (λ t. strncmp t apic_signature 4 s.mem) (sym (same_table s j)) ∙ h

  -- The notice at the end of `find_madt` changes nothing else.
  noticed :
      (s : Acpi) (n : ℕ) (o : Outcome Acpi (Unit {0})) (call : LogCall)
      → is_literal call.format ≡ true
      → Searched apic_signature s n 0 o
      → Located s n (
          and_then o
            (λ _ t. (if bit_and t.kern_flags using_apic == 0 then log call else done tt) t))
  noticed s n o call literal (found {after = t} j less hit before table flags) =
      let at = entry s j true hit in
      let before' : (k : ℕ) → k < j → IsEntry s.mem s.rsdt k false =
        λ k h. entry s k false (before k h) in
      let table' : t.apic_madt ≡ some (table_at s.mem s.rsdt j) =
        table ∙ ap some (same_table s j) in
      elim (Bool-cases (bit_and t.kern_flags using_apic == 0)) [
        | inl off ↦ rw (off, log-done call t literal) (madt j less at before' table' flags)
        | inr on ↦ rw on (madt j less at before' table' flags)
      ]
  noticed s n o call literal (missed none_at) =
      let none' : (k : ℕ) → k < n → IsEntry s.mem s.rsdt k false =
        λ k h. entry s k false (none_at k h) in
      elim (Bool-cases (bit_and s.kern_flags using_apic == 0)) [
        | inl off ↦ rw (off, log-done call s literal) (no_madt none' refl refl)
        | inr on ↦ rw on (no_madt none' refl refl)
      ]

  find_madt-Located :
      (s : Acpi) → Located s (rsdt_entry_count s.mem s.rsdt) (find_madt apic_signature s)
  unfolding find_madt
  find_madt-Located s =
      noticed s (rsdt_entry_count s.mem s.rsdt)
        (madt_loop apic_signature (rsdt_entry_count s.mem s.rsdt) 0 s)
        (message "MADT not found, continuing without APIC.\n" warning) refl
        (madt_loop-Searched apic_signature (rsdt_entry_count s.mem s.rsdt) 0 s)

  module _ (rsdp_signature rsdp : ℕ) (s : Acpi) where
    abbrev pub root : ℕ
    root = rsdt_addr s.mem rsdp

    abbrev pub entries : ℕ
    entries = (header_length s.mem root - header_size) / 4

    -- How ACPI and the MADT are known afterwards.
    pub data IsSetUp : Outcome Acpi (Unit {0}) → Type 0 where
      no_rsdp :
          {after : Acpi}
          → strncmp rsdp rsdp_signature 7 s.mem ≡ false
          → after.kern_flags ≡ bit_and s.kern_flags 0xFD
          → after.apic_madt ≡ s.apic_madt
          → IsSetUp (done tt after)
      bad_rsdt :
          {after : Acpi}
          → strncmp rsdp rsdp_signature 7 s.mem ≡ true
          → byte_sum s.mem root (header_length s.mem root) % 256 ≢ 0
          → after.kern_flags ≡ bit_and s.kern_flags 0xFD
          → after.apic_madt ≡ s.apic_madt
          → IsSetUp (done tt after)
      with_madt :
          {after : Acpi} (j : ℕ)
          → strncmp rsdp rsdp_signature 7 s.mem ≡ true
          → byte_sum s.mem root (header_length s.mem root) % 256 ≡ 0
          → j < entries
          → IsEntry s.mem root j true
          → ((k : ℕ) → k < j → IsEntry s.mem root k false)
          → after.apic_madt ≡ some (table_at s.mem root j)
          → after.kern_flags ≡ bit_or s.kern_flags using_apic
          → IsSetUp (done tt after)
      without_madt :
          {after : Acpi}
          → strncmp rsdp rsdp_signature 7 s.mem ≡ true
          → byte_sum s.mem root (header_length s.mem root) % 256 ≡ 0
          → ((k : ℕ) → k < entries → IsEntry s.mem root k false)
          → after.apic_madt ≡ s.apic_madt
          → after.kern_flags ≡ s.kern_flags
          → IsSetUp (done tt after)

    -- ACPI is on, and the length of the RSDT covers its header. The frame buffer is apart from what
    -- is read.
    module _ (signed : strncmp rsdp rsdp_signature 7 s.mem ≡ true)
        (acpi_on : bit_and s.kern_flags using_acpi ≢ 0)
        (covers : header_size ≤ header_length s.mem root) (fits : header_length s.mem root < 2 ^ 32)
        (fb : Framebuffer) (screen : IsScreen fb) (face : Font) (lines : ℕ)
        (apart : IsTablesApart fb apic_signature rsdp_signature rsdp s.mem) where
      -- The state in which the RSDT is read.
      abbrev rooted : Memory → Terminal → Acpi
      rooted m t = record s { mem = m; terminal = t; rsdt = root }

      module _ (m : Memory) (t : Terminal) (same : Agrees fb s.mem m) where
        count : rsdt_entry_count m root ≡ entries
        count =
            let length = header_length-Agrees apart m same covers in
            rsdt_entry_count_lem m root (rw length covers) (rw length fits)
            ∙ ap (λ x. (x - header_size) / 4) length

        located :
            (o : Outcome Acpi (Unit {0})) (call : LogCall)
            → is_literal call.format ≡ true
            → byte_sum s.mem root (header_length s.mem root) % 256 ≡ 0
            → Located (rooted m t) entries o
            → IsSetUp (and_then o (λ _. log call))
        located o call literal sum (madt {after} j less hit before table flags) =
            rw (log-done call after literal) (
              with_madt j signed sum less (sym (entry-Agrees apart m same covers j less) ∙ hit)
                (λ k h. sym (entry-Agrees apart m same covers k (omega arith)) ∙ before k h)
                (table ∙ ap some (table_at-Agrees apart m same covers j less)) flags)
        located o call literal sum (no_madt {after} none_at table flags) =
            rw (log-done call after literal) (
              without_madt signed sum
                (λ k h. sym (entry-Agrees apart m same covers k h) ∙ none_at k h) table flags)

      searched :
          (m : Memory) (t : Terminal)
          → Agrees fb s.mem m
          → byte_sum s.mem root (header_length s.mem root) % 256 ≡ 0
          → IsReady fb face (2 + lines) 0 t
          → IsSetUp (searching apic_signature (rooted m t))
      searched m t same sum ready =
          after_log fb screen face (message "RSDT checksum valid!\n" info) (2 + lines) (1 + lines) 0
            m t refl refl (omega arith) ready IsSetUp (rooted m t) rooted _
            λ m1 t1 same1 ready1.
              after_log fb screen face (message "Locating MADT..\n" info) (1 + lines) lines 0 m1 t1
                refl refl (omega arith) ready1 IsSetUp (rooted m1 t1) rooted _
                λ m2 t2 same2 ready2.
                  let same' = Agrees-trans fb same (Agrees-trans fb same1 same2) in
                  located m2 t2 same' (find_madt apic_signature (rooted m2 t2))
                    (message "ACPI setup finished!\n" info) refl sum
                    (subst (λ n. Located (rooted m2 t2) n (find_madt apic_signature (rooted m2 t2)))
                      (count m2 t2 same') (find_madt-Located (rooted m2 t2)))

      -- The sum of the bytes, as `verify_rsdt` forms it.
      summed :
          (m : Memory) (t : Terminal)
          → Agrees fb s.mem m
          → sum_loop (header_length m root) m root 0 0 % 0x100
            ≡ byte_sum s.mem root (header_length s.mem root) % 256
      summed m t same = rw (header_length-Agrees apart m same covers) (
          checksum m root (header_length s.mem root)
          ∙ ap (λ (n : ℕ). n % 256) (byte_sum-Agrees apart m same covers))

      verified :
          (m : Memory) (t : Terminal)
          → Agrees fb s.mem m
          → IsReady fb face (2 + lines) 0 t
          → IsSetUp (verifying apic_signature (rooted m t))
      unfolding verify_rsdt
      verified m t same ready =
          elim (Bool-cases (sum_loop (header_length m root) m root 0 0 % 0x100 == 0)) [
            | inl valid ↦
                let on : bit_and s.kern_flags using_acpi == 0 ≡ false = ground arith in
                rw (valid, on) (searched m t same (ground (arith, summed m t same)) ready)
            | inr invalid ↦
                let off : bit_and (bit_and s.kern_flags 0xFD) using_acpi == 0 ≡ true =
                  ground (arith, cleared s.kern_flags) in
                rw
                  (
                    invalid,
                    log-done
                        (message "RSDT checksum invalid, system halted. (Continuing without ACPI)."
                          critical)
                        (rooted m t) refl,
                    off,
                  )
                  (bad_rsdt signed (λ e. ground (arith, summed m t same)) refl refl)
          ]

      used :
          (m : Memory) (t : Terminal)
          → Agrees fb s.mem m
          → IsReady fb face (4 + lines) 0 t
          → IsSetUp (use_rsdt apic_signature rsdp (redrawn s m t))
      unfolding use_rsdt
      used m t same ready =
          after_log fb screen face (message "RSDP signature is valid.\n" info) (4 + lines)
            (3 + lines) 0 m t refl refl (omega arith) ready IsSetUp (redrawn s m t) (redrawn s) _
            λ m1 t1 same1 ready1.
              let same' = Agrees-trans fb same same1 in
              rw (rsdt_addr-Agrees apart m1 same') (
                after_log fb screen face (message "Veriying RSDT checksum..\n" info) (3 + lines)
                  (2 + lines) 0 m1 t1 refl refl (omega arith) ready1 IsSetUp (rooted m1 t1) rooted _
                  λ m2 t2 same2 ready2. verified m2 t2 (Agrees-trans fb same' same2) ready2)

    -- Where ACPI is on, the length of the RSDT is 32 bits and covers its header, the frame buffer
    -- ends within the address space and shares no byte with what is read, and five lines are left
    -- below the cursor, acpi_init returns: where strncmp of the RSDP and its signature is false,
    -- or where the bytes of the RSDT do not sum to 0 modulo 256, with ACPI off; else with the
    -- first entry for which strncmp with the signature of the MADT is true as the MADT and the
    -- APIC flag set, or as before if it is true for none; strncmp is also true for a null pointer.
    pub acpi_init-IsSetUp :
        (fb : Framebuffer) (screen : IsScreen fb) (face : Font) (lines : ℕ)
        → bit_and s.kern_flags using_acpi ≢ 0
        → header_size ≤ header_length s.mem root
        → header_length s.mem root < 2 ^ 32
        → IsTablesApart fb apic_signature rsdp_signature rsdp s.mem
        → IsReady fb face (5 + lines) 0 s.terminal
        → IsSetUp (acpi_init apic_signature rsdp_signature rsdp s)
    unfolding acpi_init
    acpi_init-IsSetUp fb screen face lines acpi_on covers fits apart ready =
        after_log fb screen face (message "Verifying RSDP signature..\n" info) (5 + lines)
          (4 + lines) 0 s.mem s.terminal refl refl (omega arith) ready IsSetUp s (redrawn s) _
          λ m1 t1 same1 ready1.
            let check = signature-Agrees apart m1 same1 in
            elim (Bool-cases (strncmp rsdp rsdp_signature 7 s.mem)) [
              | inl signed ↦
                  rw (check, signed)
                    (used signed acpi_on covers fits fb screen face lines apart m1 t1 same1 ready1)
              | inr unsigned ↦
                  rw
                    (
                      check,
                      unsigned,
                      log-done
                          (message
                            "RSDP is invalid, signature does not match! (Continuing without ACPI).\n"
                            critical)
                          (redrawn s m1 t1) refl,
                    )
                    (no_rsdp unsigned refl refl)
            ]
