-- ===== src/Idt/Gate.antt =====
-- The gates that `idt_set_vec` and `idt_install` of kernel/src/interrupts/impl/IDT.c give the CPU.
use kess_os_paranoid_edition.Base.{
  ℕ, ◌+◌, ◌*◌, ◌/◌, ◌%◌, ◌^◌, ◌<◌, ◌≡◌, ◌≢◌, refl, arith, ◌==◌, bit_and_mask, true, false, u8,
}
use kess_os_paranoid_edition.Idt.{Idt, IdtVector, set_entry, idt_set_vec}

-- The 128 bits of an entry, as the struct is laid out.
abbrev pub bits : IdtVector → ℕ
bits v =
    v.isr_low16
    + v.cs * 2 ^ 16
    + v.ist * 2 ^ 32
    + v.zero_bit * 2 ^ 35
    + v.zero1 * 2 ^ 36
    + v.attr * 2 ^ 40
    + v.zero2 * 2 ^ 44
    + v.dpl * 2 ^ 45
    + v.p * 2 ^ 47
    + v.isr_mid16 * 2 ^ 48
    + v.isr_high32 * 2 ^ 64
    + v.reserved * 2 ^ 96

-- How the CPU reads a 64-bit gate.
abbrev pub gate_offset : ℕ → ℕ
gate_offset g = g % 2 ^ 16 + g / 2 ^ 48 % 2 ^ 16 * 2 ^ 16 + g / 2 ^ 64 % 2 ^ 32 * 2 ^ 32

abbrev pub gate_selector : ℕ → ℕ
gate_selector g = g / 2 ^ 16 % 2 ^ 16

abbrev pub gate_type : ℕ → ℕ
gate_type g = g / 2 ^ 40 % 2 ^ 4

abbrev pub gate_dpl : ℕ → ℕ
gate_dpl g = g / 2 ^ 45 % 2 ^ 2

abbrev pub gate_present : ℕ → ℕ
gate_present g = g / 2 ^ 47 % 2

-- A gate to a kernel handler: present, for ring 0 only.
pub record IsGate (g isr kind : ℕ) : Type 0 where
  pub offset : gate_offset g ≡ isr
  pub selector : gate_selector g ≡ 0x08
  pub type : gate_type g ≡ kind
  pub dpl : gate_dpl g ≡ 0
  pub present : gate_present g ≡ 1

pub set_entry-IsGate :
    (isr flags : ℕ) (v : IdtVector)
    → isr < 2 ^ 64
    → v.ist < 2 ^ 3
    → IsGate (bits (set_entry isr flags v)) isr (flags % 2 ^ 4)
set_entry-IsGate isr flags v h small =
    let low = bit_and_mask 16 isr in
    let mid = bit_and_mask 16 (isr / 2 ^ 16) in
    let high = bit_and_mask 32 (isr / 2 ^ 32) in
    record {
      offset = omega (arith, low, mid, high);
      selector = omega (arith, low, mid, high);
      type = omega (arith, low, mid, high);
      dpl = omega (arith, low, mid, high);
      present = omega (arith, low, mid, high);
    }

-- For a vector below 256 and a 64-bit handler, where the entry has a stack number of three bits,
-- the CPU reads from the entry that idt_set_vec leaves a present ring 0 gate to the handler
-- through the selector 8, of the type in the low four bits of the flags, and no other entry
-- changes.
pub idt_set_vec-IsGate :
    (vec isr flags : ℕ) (s : Idt)
    → vec < 256
    → isr < 2 ^ 64
    → (s.idt vec).ist < 2 ^ 3
    → IsGate (bits ((idt_set_vec vec isr flags s).idt vec)) isr (flags % 2 ^ 4)
      × ((v : ℕ) → v ≢ vec → (idt_set_vec vec isr flags s).idt v ≡ s.idt v)
unfolding idt_set_vec
idt_set_vec-IsGate vec isr flags s h isr_fits small =
    let same : vec == u8 vec ≡ true = ground arith in
    (
      rw same (set_entry-IsGate isr flags (s.idt vec) isr_fits small),
      λ v ne. let other : v == u8 vec ≡ false = ground arith in rw other refl,
    )
