-- ===== src/Kernel/Cpu.antt =====
-- The CPU's registers that the kernel loads: kernel/src/arch/memory/asm/GDT.asm,
-- kernel/src/protection/asm/iopl.asm and the macros of kernel/src/util/asm.h.
use kess_os_paranoid_edition.Base.{
  ℕ, ◌+◌, ◌-◌, ◌*◌, ◌/◌, ◌%◌, ◌^◌, ◌≡◌, bit_and, bit_or, Option, some, List, [], ◌∷◌, arith,
  bit_and_at, bit_or_at,
}

-- An entry of the GDT.
pub record Descriptor : Type 0 where
  pub limit_low : ℕ
  pub base_low : ℕ
  pub base_middle : ℕ
  pub access : ℕ
  pub granularity : ℕ
  pub base_high : ℕ

abbrev flat : ℕ → ℕ → Descriptor
flat access granularity = record {
  limit_low = 0;
  base_low = 0;
  base_middle = 0;
  access = access;
  granularity = granularity;
  base_high = 0;
}

-- The entries null, code, data, user_code and user_data; the 16 bytes of TSS are two null ones.
unfoldable pub gdt : List Descriptor
gdt =
    flat 0 0
    ∷ flat 0b10011010 0b10101111
    ∷ flat 0b10010010 0b00000000
    ∷ flat 0b11111010 0b10101111
    ∷ flat 0b11110010 0b00000000
    ∷ flat 0 0
    ∷ flat 0 0
    ∷ []

-- `Pointer`, which `lgdt` loads.
pub record GdtPtr : Type 0 where
  pub limit : ℕ
  pub base : ℕ

-- The segment registers, FLAGS and the GDTR.
pub record Cpu : Type 0 where
  pub gdtr : Option GdtPtr
  pub cs : ℕ
  pub ds : ℕ
  pub es : ℕ
  pub ss : ℕ
  pub fs : ℕ
  pub gs : ℕ
  pub flags : ℕ

-- Bit 9 of FLAGS enables interrupts.
unfoldable pub cli : Cpu → Cpu
cli c = record c { flags = bit_and c.flags (2 ^ 64 - 1 - 2 ^ 9) }

unfoldable pub sti : Cpu → Cpu
sti c = record c { flags = bit_or c.flags (2 ^ 9) }

-- `address` is where the linker has put the GDT.
unfoldable pub gdt_load : ℕ → Cpu → Cpu
unfolding cli
gdt_load address c = record (cli c) {
  gdtr = some record { limit = 5 * 8 + 2 * 8 - 1; base = address };
  ds = 0x10;
  es = 0x10;
  ss = 0x10;
  fs = 0x10;
  gs = 0x10;
  cs = 0x08;
}

-- The two bits 12 and 13 are IOPL.
unfoldable pub zero_iopl : Cpu → Cpu
zero_iopl c = record c {
  flags = bit_and (bit_and c.flags (2 ^ 64 - 1 - 2 ^ 12)) (2 ^ 64 - 1 - 2 ^ 13);
}

-- A flag of a word.
abbrev pub flag : ℕ → ℕ → ℕ
flag k flags = flags / 2 ^ k % 2

-- Interrupts are off, or on, and port access is for ring 0 only.
pub record HasFlags (enabled : ℕ) (c : Cpu) : Type 0 where
  pub interrupts : flag 9 c.flags ≡ enabled
  pub iopl_low : flag 12 c.flags ≡ 0
  pub iopl_high : flag 13 c.flags ≡ 0

pub gdt_load-interrupts : (address : ℕ) (c : Cpu) → flag 9 (gdt_load address c).flags ≡ 0
unfolding gdt_load
gdt_load-interrupts address c = omega (arith, bit_and_at 9 c.flags (2 ^ 64 - 1 - 2 ^ 9))

pub zero_iopl-HasFlags : (c : Cpu) → flag 9 c.flags ≡ 0 → HasFlags 0 (zero_iopl c)
unfolding zero_iopl
zero_iopl-HasFlags c off =
    let low = bit_and c.flags (2 ^ 64 - 1 - 2 ^ 12) in
    record {
      interrupts = omega (
        arith,
        bit_and_at 9 low (2 ^ 64 - 1 - 2 ^ 13),
        bit_and_at 9 c.flags (2 ^ 64 - 1 - 2 ^ 12),
      );
      iopl_low = omega (
        arith,
        bit_and_at 12 low (2 ^ 64 - 1 - 2 ^ 13),
        bit_and_at 12 c.flags (2 ^ 64 - 1 - 2 ^ 12),
      );
      iopl_high = omega (arith, bit_and_at 13 low (2 ^ 64 - 1 - 2 ^ 13));
    }

pub sti-HasFlags : {e : ℕ} (c : Cpu) → HasFlags e c → HasFlags 1 (sti c)
unfolding sti
sti-HasFlags c h =
    let low = h.iopl_low in
    let high = h.iopl_high in
    record {
      interrupts = omega (arith, bit_or_at 9 c.flags (2 ^ 9));
      iopl_low = omega (arith, bit_or_at 12 c.flags (2 ^ 9));
      iopl_high = omega (arith, bit_or_at 13 c.flags (2 ^ 9));
    }

pub cli-HasFlags : {e : ℕ} (c : Cpu) → HasFlags e c → HasFlags 0 (cli c)
unfolding cli
cli-HasFlags c h =
    let low = h.iopl_low in
    let high = h.iopl_high in
    record {
      interrupts = omega (arith, bit_and_at 9 c.flags (2 ^ 64 - 1 - 2 ^ 9));
      iopl_low = omega (arith, bit_and_at 12 c.flags (2 ^ 64 - 1 - 2 ^ 9));
      iopl_high = omega (arith, bit_and_at 13 c.flags (2 ^ 64 - 1 - 2 ^ 9));
    }
