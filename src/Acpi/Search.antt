-- ===== src/Acpi/Search.antt =====
-- What `acpi_init` of kernel/src/firmware/acpi/impl/acpi.c decides.
use kess_os_paranoid_edition.Base.{
  ℕ, zero, suc, ◌+◌, ◌-◌, ◌/◌, ◌%◌, ◌^◌, ◌≤◌, ◌<◌, ◌≡◌, refl, ◌++◌, ap, ◌∙◌, arith, bit_or, Bool,
  true, false, Bool-cases, inl, inr, some, u8,
}
use mathlib.Core.Path.{subst}
use kess_os_paranoid_edition.Memory.{Memory}
use kess_os_paranoid_edition.Outcome.{Outcome, done}
use kess_os_paranoid_edition.Pit.{using_apic}
use kess_os_paranoid_edition.Strings.{strncmp}
use kess_os_paranoid_edition.Log.{LogCall, message, info}
use kess_os_paranoid_edition.Screen.{Display, kwrite}
use kess_os_paranoid_edition.Kernel.Console.{
  label_of, color_of, is_literal, is_literal-IsLiteral, log-IsLiteral,
}
use kess_os_paranoid_edition.Kernel.Terminal.{Terminal, console_of}
use kess_os_paranoid_edition.Acpi.{
  log, redrawn, Acpi, header_length, table_at, sum_loop, rsdt_entry_count, madt_loop, header_size,
}

abbrev pub byte_sum : Memory → ℕ → ℕ → ℕ
byte_sum m p zero = 0
byte_sum m p (suc n) = m p + byte_sum m (p + 1) n

sum_loop-byte_sum :
    (left : ℕ) (m : Memory) (rsdt i sum : ℕ)
    → sum < 256
    → sum_loop left m rsdt i sum ≡ (sum + byte_sum m (rsdt + i) left) % 256
unfolding sum_loop
sum_loop-byte_sum zero m rsdt i sum h = omega arith
sum_loop-byte_sum (suc left) m rsdt i sum h =
    let next : rsdt + (i + 1) ≡ rsdt + i + 1 = omega arith in
    sum_loop-byte_sum left m rsdt (i + 1) (u8 (sum + m (rsdt + i))) (omega arith)
    ∙ rw next (omega arith)

pub checksum : (m : Memory) (rsdt n : ℕ) → sum_loop n m rsdt 0 0 % 0x100 ≡ byte_sum m rsdt n % 256
checksum m rsdt n =
    let start : rsdt + 0 ≡ rsdt = omega arith in
    omega (
      arith,
      sum_loop-byte_sum n m rsdt 0 0 (omega arith) ∙ ap (λ p. (0 + byte_sum m p n) % 256) start,
    )

pub rsdt_entry_count_lem :
    (m : Memory) (rsdt : ℕ)
    → header_size ≤ header_length m rsdt
    → header_length m rsdt < 2 ^ 32
    → rsdt_entry_count m rsdt ≡ (header_length m rsdt - header_size) / 4
unfolding rsdt_entry_count
rsdt_entry_count_lem m rsdt h fits = omega arith

-- The display behind a call without arguments.
abbrev shown_by : LogCall → Acpi → Display
shown_by call s =
    kwrite (label_of call.status ++ call.format) (color_of call.status)
      record { mem = s.mem; canvas = s.terminal.canvas }

abbrev pub log_mem : LogCall → Acpi → Memory
log_mem call s = (shown_by call s).mem

abbrev pub log_terminal : LogCall → Acpi → Terminal
log_terminal call s = record s.terminal { canvas = (shown_by call s).canvas }

-- A call of `log` without arguments, seen from the rest of the state.
pub log-done :
    (call : LogCall) (s : Acpi)
    → is_literal call.format ≡ true
    → log call s ≡ done tt (redrawn s (log_mem call s) (log_terminal call s))
log-done call s literal =
    rw (log-IsLiteral call (console_of s.mem s.terminal) (is_literal-IsLiteral call.format literal))
      refl

module _ (apic_signature : ℕ) where
  -- The search has stopped at the first entry with the signature, from `i` on, or has found none.
  pub data Searched (s : Acpi) (left i : ℕ) : Outcome Acpi (Unit {0}) → Type 0 where
    found :
        {after : Acpi} (j : ℕ)
        → j < left
        → strncmp (table_at s.mem s.rsdt (i + j)) apic_signature 4 s.mem ≡ true
        → ((k : ℕ) → k < j → strncmp (table_at s.mem s.rsdt (i + k)) apic_signature 4 s.mem ≡ false)
        → after.apic_madt ≡ some (table_at s.mem s.rsdt (i + j))
        → after.kern_flags ≡ bit_or s.kern_flags using_apic
        → Searched s left i (done tt after)
    missed :
        ((k : ℕ)
          → k < left
          → strncmp (table_at s.mem s.rsdt (i + k)) apic_signature 4 s.mem ≡ false)
        → Searched s left i (done tt s)

  abbrev IsAt : Acpi → ℕ → Bool → Type 0
  IsAt s j b = strncmp (table_at s.mem s.rsdt j) apic_signature 4 s.mem ≡ b

  shift_index : (s : Acpi) (i j : ℕ) (b : Bool) → IsAt s (i + 1 + j) b → IsAt s (i + suc j) b
  shift_index s i j b h =
      let e : i + 1 + j ≡ i + suc j = omega arith in
      subst (λ t. strncmp (table_at s.mem s.rsdt t) apic_signature 4 s.mem ≡ b) e h

  before :
      (s : Acpi) (i left : ℕ)
      → IsAt s i false
      → (j : ℕ) → ((k : ℕ) → k < j → IsAt s (i + 1 + k) false)
      → (k : ℕ) → k < suc j
      → IsAt s (i + k) false
  before s i left miss j none_before zero h = let here : i + 0 ≡ i = omega arith in rw here miss
  before s i left miss j none_before (suc k) h =
      shift_index s i k false (none_before k (omega arith))

  later :
      (s : Acpi) (i left : ℕ)
      → IsAt s i false
      → (o : Outcome Acpi (Unit {0})) → Searched s left (i + 1) o
      → Searched s (suc left) i o
  later s i left miss o (found j less hit none_before table flags) =
      found (suc j) (omega arith) (shift_index s i j true hit)
        (λ k h. before s i left miss j none_before k h)
        (table ∙ ap (λ t. some (table_at s.mem s.rsdt t)) (omega arith)) flags
  later s i left miss o (missed none_after) =
      missed (λ k h. before s i left miss left none_after k h)

  pub madt_loop-Searched :
      (left i : ℕ) (s : Acpi) → Searched s left i (madt_loop apic_signature left i s)
  unfolding madt_loop
  madt_loop-Searched zero i s = missed (λ k h. absurd (omega arith))
  madt_loop-Searched (suc left) i s =
      let here : i + 0 ≡ i = omega arith in
      elim (Bool-cases (strncmp (table_at s.mem s.rsdt i) apic_signature 4 s.mem)) [
        | inl hit ↦
            let marked : Acpi = record s {
              apic_madt = some (table_at s.mem s.rsdt i);
              kern_flags = bit_or s.kern_flags using_apic;
            } in
            rw (hit, log-done (message "MADT found!\n" info) marked refl)
              (found 0 (omega arith) (rw here hit) (λ k h. absurd (omega arith)) (rw here refl)
                refl)
        | inr miss ↦ rw miss (
            later s i left miss (madt_loop apic_signature left (i + 1) s)
              (madt_loop-Searched left (i + 1) s))
      ]
