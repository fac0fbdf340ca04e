-- ===== src/Idt/Tests.antt =====
-- Tests of kernel/src/interrupts.
use kess_os_paranoid_edition.Base.{ℕ, ◌≡◌, ◌≢◌, refl, arith, none, some, []}
use kess_os_paranoid_edition.Idt.{
  Idt, IdtVector, idt_set_vec, idt_install, trap_gate_flags, get_page_fault_code,
}
use kess_os_paranoid_edition.Idt.Gate.{IsGate, bits, idt_set_vec-IsGate}
use kess_os_paranoid_edition.Idt.PageFault.{read_code, get_page_fault_code_lem}

-- A static starts with zeros.
abbrev empty_vector : IdtVector
empty_vector = record {
  isr_low16 = 0;
  cs = 0;
  ist = 0;
  zero_bit = 0;
  zero1 = 0;
  attr = 0;
  zero2 = 0;
  dpl = 0;
  p = 0;
  isr_mid16 = 0;
  isr_high32 = 0;
  reserved = 0;
}

abbrev at_boot : Idt
at_boot = record { idt = λ v. empty_vector; idt_ptr = record { limit = 0; base = 0 }; idtr = none }

idt_set_vec-IsGate_example :
    IsGate
      (bits ((idt_set_vec 14 0xFFFFFFFF80001234 trap_gate_flags at_boot).idt 14))
      0xFFFFFFFF80001234
      0xF
    × ((v : ℕ)
        → v ≢ 14
        → (idt_set_vec 14 0xFFFFFFFF80001234 trap_gate_flags at_boot).idt v ≡ empty_vector)
idt_set_vec-IsGate_example =
    idt_set_vec-IsGate 14 0xFFFFFFFF80001234 trap_gate_flags at_boot (omega arith) (omega arith)
      (omega arith)

limit : (idt_install 0x5000 at_boot).idtr ≡ some record { base = 0x5000; limit = 4095 }
unfolding idt_install
limit = refl

get_page_fault_code_example : read_code (get_page_fault_code 0x26 []) ≡ 0x26
get_page_fault_code_example = get_page_fault_code_lem 0x26 []
