-- ===== src/Kernel/Gates.antt =====
-- The gates that `init` of kernel/src/kernel.c gives the handlers.
use kess_os_paranoid_edition.Base.{ℕ, ◌+◌, arith, ◌^◌, ◌<◌, ◌≡◌, refl, some}
use kess_os_paranoid_edition.Outcome.{Cmd, and_then, Ensures}
use kess_os_paranoid_edition.Log.{message, info}
use kess_os_paranoid_edition.Memory.{Memory}
use kess_os_paranoid_edition.Screen.{Framebuffer, Font}
use kess_os_paranoid_edition.Screen.Room.{Agrees, Agrees-trans, IsScreen}
use kess_os_paranoid_edition.Kernel.Terminal.{Terminal}
use kess_os_paranoid_edition.Kernel.Drawing.{IsReady, log-IsReady}
use kess_os_paranoid_edition.Ports.{Bus}
use kess_os_paranoid_edition.Idt.{Idt, idt_set_vec, idt_install, trap_gate_flags, int_gate_flags}
use kess_os_paranoid_edition.Idt.Gate.{IsGate, bits, set_entry-IsGate}
use kess_os_paranoid_edition.Kernel.Cpu.{gdt_load, gdt_load-interrupts, flag}
use kess_os_paranoid_edition.Kernel.Start.{
  Handler, div0_handler, debug_exception, breakpoint_exception, overflow_exception,
  boundrange_exceeded_exception, invalid_opcode_exception, dev_not_avail_exception, double_fault,
  invalid_tss_exception, stack_segment_fault, general_protection_fault, segment_not_present,
  page_fault, irq0_handler, Linked, Machine, redrawn, set_up_interrupts,
}

-- The vector of each event, as the CPU defines it, and that of the timer's line.
abbrev pub vector : Handler → ℕ
vector div0_handler = 0
vector debug_exception = 1
vector breakpoint_exception = 3
vector overflow_exception = 4
vector boundrange_exceeded_exception = 5
vector invalid_opcode_exception = 6
vector dev_not_avail_exception = 7
vector double_fault = 8
vector invalid_tss_exception = 10
vector segment_not_present = 11
vector stack_segment_fault = 12
vector general_protection_fault = 13
vector page_fault = 14
vector irq0_handler = 0x20

-- An interrupt gate turns interrupts off on entry, a trap gate does not.
abbrev pub gate_kind : Handler → ℕ
gate_kind irq0_handler = 0xE
gate_kind _ = 0xF

-- The globals that `init` leaves alone.
pub record IsKept {S : Type 0} (s t : Machine S) : Type 0 where
  pub ticks : t.ticks ≡ s.ticks
  pub legacy_mode : t.legacy_mode ≡ s.legacy_mode

module _ (linked : Linked) where
  abbrev set : Handler → ℕ → Idt → Idt
  set h flags = idt_set_vec (vector h) (linked.handler h) flags

  abbrev trap : Handler → Idt → Idt
  trap h = set h trap_gate_flags

  -- The IDT with every gate.
  abbrev installed : Idt → Idt
  installed d =
      let d1 = trap breakpoint_exception (trap debug_exception (trap div0_handler d)) in
      let d2 =
        trap invalid_opcode_exception
          (trap boundrange_exceeded_exception (trap overflow_exception d1)) in
      let d3 = trap invalid_tss_exception (trap double_fault (trap dev_not_avail_exception d2)) in
      let d4 =
        trap general_protection_fault (trap stack_segment_fault (trap segment_not_present d3)) in
      idt_install linked.idt (set irq0_handler int_gate_flags (trap page_fault d4))

  module _ (wide : (h : Handler) → linked.handler h < 2 ^ 64) (d : Idt)
      (stacks : (v : ℕ) → (d.idt v).ist < 2 ^ 3) where
    gate :
        (h : Handler)
        → IsGate (bits ((installed d).idt (vector h))) (linked.handler h) (gate_kind h)
    unfolding idt_install idt_set_vec
    gate irq0_handler =
        set_entry-IsGate (linked.handler irq0_handler) int_gate_flags (d.idt 0x20)
          (wide irq0_handler) (stacks 0x20)
    gate h =
        set_entry-IsGate (linked.handler h) trap_gate_flags (d.idt (vector h)) (wide h)
          (stacks (vector h))

module _ {S : Type 0} (linked : Linked) where
  -- Every handler has its gate, the CPU knows the tables, and interrupts are off.
  pub record IsHandled (s : Machine S) : Type 0 where
    pub gates :
        (h : Handler) → IsGate (bits (s.idt.idt (vector h))) (linked.handler h) (gate_kind h)
    pub idtr : s.idt.idtr ≡ some record { base = linked.idt; limit = 4095 }
    pub gdtr : s.cpu.gdtr ≡ some record { base = linked.gdt; limit = 55 }
    pub code : s.cpu.cs ≡ 0x08
    pub stack : s.cpu.ss ≡ 0x10
    pub interrupts : flag 9 s.cpu.flags ≡ 0

  -- The machine behind `idt_install`, with text drawn.
  abbrev pub with_handlers : Machine S → Memory → Terminal → Machine S
  with_handlers s m t =
      redrawn (record s { cpu = gdt_load linked.gdt s.cpu; idt = installed linked s.idt }) m t

  module _ (fb : Framebuffer) (screen : IsScreen fb) (face : Font)
      (wide : (h : Handler) → linked.handler h < 2 ^ 64) (bus : Bus S) (s : Machine S)
      (stacks : (v : ℕ) → (s.idt.idt v).ist < 2 ^ 3) where
    -- What holds of the rest of `init` behind `idt_install` holds of the whole.
    pub after_interrupts :
        (Q : Unit {0} → Machine S → Type 0) (H : Machine S → Type 0) (lines : ℕ)
        (k : Unit {0} → Cmd (Machine S) (Unit {0}))
        → IsReady fb face (4 + lines) 0 s.vmm.terminal
        → ((m : Memory) (t : Terminal)
            → IsHandled (with_handlers s m t)
            → Agrees fb s.vmm.mem m
            → IsReady fb face lines 0 t
            → Ensures Q H (k tt (with_handlers s m t)))
        → Ensures Q H (and_then (set_up_interrupts linked bus s) k)
    unfolding set_up_interrupts
    after_interrupts Q H lines k ready rest =
        let (m1, t1, run1, same1, ready1) =
          log-IsReady fb screen face (message "Setting up Global Descriptor Table..\n" info)
            (4 + lines) (3 + lines) 0 s.vmm.mem s.vmm.terminal refl refl (omega arith) ready in
        let (m2, t2, run2, same2, ready2) =
          log-IsReady fb screen face (message "Setting up exceptions..\n" info) (3 + lines)
            (2 + lines) 0 m1 t1 refl refl (omega arith) ready1 in
        let (m3, t3, run3, same3, ready3) =
          log-IsReady fb screen face (message "Setting up IRQs..\n" info) (2 + lines) (1 + lines) 0
            m2 t2 refl refl (omega arith) ready2 in
        let (m4, t4, run4, same4, ready4) =
          log-IsReady fb screen face
            (message "Loading IDTR with Interrupt Descriptor Table Pointer..\n" info) (1 + lines)
            lines 0 m3 t3 refl refl (omega arith) ready3 in
        rw (run1, run2, run3, run4)
          (rest m4 t4
            record {
              gates = gate linked wide s.idt stacks;
              idtr = refl;
              gdtr = refl;
              code = refl;
              stack = refl;
              interrupts = gdt_load-interrupts linked.gdt s.cpu;
            }
            (Agrees-trans fb same1 (Agrees-trans fb same2 (Agrees-trans fb same3 same4))) ready4)
