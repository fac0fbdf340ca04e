-- ===== src/Idt.antt =====
-- kernel/src/interrupts: the interrupt descriptor table, and the report of a page fault's code.
pub mod Gate
pub mod PageFault
mod Tests
use kess_os_paranoid_edition.Base.{
  ℕ, ◌+◌, ◌-◌, ◌*◌, ◌/◌, ◌%◌, ◌^◌, bit_and, ◌==◌, if◌then◌else◌, u8, u16, u32, ◌<<<◌, ◌>>>◌, Option,
  some, ◌∷◌,
}
use kess_os_paranoid_edition.Log.{Journal, message, plain, LogCall}

abbrev pub trap_gate_flags : ℕ
trap_gate_flags = 0x8F

abbrev pub int_gate_flags : ℕ
int_gate_flags = 0x8E

abbrev pub idt_int_gate_user : ℕ
idt_int_gate_user = 0xEE

-- `struct IDTVector`
pub record IdtVector : Type 0 where
  pub isr_low16 : ℕ
  pub cs : ℕ
  pub ist : ℕ
  pub zero_bit : ℕ
  pub zero1 : ℕ
  pub attr : ℕ
  pub zero2 : ℕ
  pub dpl : ℕ
  pub p : ℕ
  pub isr_mid16 : ℕ
  pub isr_high32 : ℕ
  pub reserved : ℕ

-- `struct IDTPtr`
pub record IdtPtr : Type 0 where
  pub limit : ℕ
  pub base : ℕ

-- The statics `idt` and `idt_ptr`, and the IDTR once `lidt` has loaded it.
pub record Idt : Type 0 where
  pub idt : ℕ → IdtVector
  pub idt_ptr : IdtPtr
  pub idtr : Option IdtPtr

-- The assignments to one entry; `ist` keeps its value. A bit-field keeps its low bits.
abbrev pub set_entry : ℕ → ℕ → IdtVector → IdtVector
set_entry addr flags v = record v {
  isr_low16 = u16 (bit_and addr 0xFFFF);
  isr_mid16 = u16 (bit_and (addr >>> 16) 0xFFFF);
  isr_high32 = u32 (bit_and (addr >>> 32) 0xFFFFFFFF);
  zero_bit = 0;
  zero1 = 0;
  zero2 = 0;
  attr = flags % 2 ^ 4;
  dpl = 0;
  p = 1;
  reserved = 0;
  cs = 0x08;
}

unfoldable pub idt_set_vec : ℕ → ℕ → ℕ → Idt → Idt
idt_set_vec vec isr flags s = record s {
  idt = λ v. if v == u8 vec then set_entry isr flags (s.idt v) else s.idt v;
}

abbrev pub vector_size : ℕ
vector_size = 16

-- `idt_address` is where the linker has put `idt`.
unfoldable pub idt_install : ℕ → Idt → Idt
idt_install idt_address s =
    let ptr : IdtPtr = record { base = idt_address; limit = u16 (vector_size * 256 - 1) } in
    record s { idt_ptr = ptr; idtr = some ptr }

-- The bits of the error code of a page fault.
abbrev pub bit_p : ℕ
bit_p = 1 <<< 0

abbrev pub bit_w : ℕ
bit_w = 1 <<< 1

abbrev pub bit_u : ℕ
bit_u = 1 <<< 2

abbrev pub bit_r : ℕ
bit_r = 1 <<< 3

abbrev pub bit_i : ℕ
bit_i = 1 <<< 4

abbrev pub bit_pk : ℕ
bit_pk = 1 <<< 5

abbrev pub bit_ss : ℕ
bit_ss = 1 <<< 6

abbrev pub report : ℕ → ℕ → LogCall → Journal → Journal
report error_code flag call journal =
    if bit_and error_code flag == 0 then journal else call ∷ journal

-- The calls of `log`, the newest first.
unfoldable pub get_page_fault_code : ℕ → Journal → Journal
get_page_fault_code error_code journal =
    let head =
      message "-|" plain
      ∷ message
          "\nBelow are error flags, take a photo of this screen and send it to [HSC] Spurious#0070 on Discord.\n\n"
          plain
      ∷ journal in
    let read = report error_code bit_p (message "P|" plain) head in
    let write = report error_code bit_w (message "W|" plain) read in
    let user = report error_code bit_u (message "U|" plain) write in
    let reserved = report error_code bit_r (message "R|" plain) user in
    let fetch = report error_code bit_i (message "I|" plain) reserved in
    let key = report error_code bit_pk (message "PK|" plain) fetch in
    let stack = report error_code bit_ss (message "SS|" plain) key in message "-\n\n" plain ∷ stack
