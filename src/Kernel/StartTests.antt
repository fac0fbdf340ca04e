-- ===== src/Kernel/StartTests.antt =====
-- Tests of `_start` of kernel/src/kernel.c on a small machine.
use kess_os_paranoid_edition.Base.{ℕ, zero, suc, none, List, [], ◌∷◌}
use kess_os_paranoid_edition.Vmm.Tests.{pml4, booted, terminal, lfb, font}
use kess_os_paranoid_edition.Idt.{IdtVector}
use kess_os_paranoid_edition.Pit.{Event, irq0}
use kess_os_paranoid_edition.Pit.Tests.{Pc, pc}
use kess_os_paranoid_edition.Kernel.Init.{base, limit}
use kess_os_paranoid_edition.Kernel.Start.{Linked, Machine, initial_flags, initial_canvas}

abbrev linked : Linked
linked = record {
  gdt = 0x110000;
  idt = 0x111000;
  pml4 = pml4;
  apic_signature = 0x112000;
  rsdp_signature = 0x112005;
  handler = λ h. 0x113000;
}

abbrev empty : IdtVector
empty = record {
  isr_low16 = 0;
  cs = 0;
  ist = 0;
  zero_bit = 0;
  zero1 = 0;
  attr = 0;
  zero2 = 0;
  dpl = 0;
  p = 0;
  isr_mid16 = 0;
  isr_high32 = 0;
  reserved = 0;
}

-- Interrupts are on where the boot loader leaves.
abbrev machine : Machine Pc
machine = record {
  vmm = record booted { terminal = record terminal { canvas = initial_canvas lfb font } };
  idt = record { idt = λ v. empty; idt_ptr = record { limit = 0; base = 0 }; idtr = none };
  rsdt = 0;
  apic_madt = none;
  kern_flags = initial_flags;
  legacy_mode = 0;
  ticks = 0;
  cpu = record {
    gdtr = none;
    cs = 0x38;
    ds = 0x30;
    es = 0x30;
    ss = 0x30;
    fs = 0x30;
    gs = 0x30;
    flags = 0x202;
  };
  devices = pc;
}

-- The timer's interrupts, one after the other.
ticking : ℕ → List Event
ticking zero = []
ticking (suc n) = irq0 ∷ ticking n
