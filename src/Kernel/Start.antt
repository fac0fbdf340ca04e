-- ===== src/Kernel/Start.antt =====
-- `init` and `_start` of kernel/src/kernel.c, over the parts that they set up. `log` draws in the
-- memory that the parts share.
use kess_os_paranoid_edition.Base.{
  ℕ, zero, suc, ◌+◌, ◌*◌, ◌-◌, bit_and, Bool, ◌&&◌, ◌||◌, ltb, Option, none, some, List, [], ◌∷◌,
  ◌==◌, if◌then◌else◌, u8,
}
use kess_os_paranoid_edition.Log.{LogCall, Journal, message, info}
use kess_os_paranoid_edition.Memory.{Memory}
use kess_os_paranoid_edition.Strings.{strncmp}
use kess_os_paranoid_edition.Kernel.Terminal.{Terminal, print}
use kess_os_paranoid_edition.Outcome.{
  Outcome, done, halted, fault, out_of_fuel, Cmd, ◌>>=◌, ◌>>◌, modify, read,
}
use kess_os_paranoid_edition.Ports.{Bus}
use kess_os_paranoid_edition.MemoryMap.{MemInfo}
use kess_os_paranoid_edition.Vmm.{Vmm, mapped_end, vmm_init}
use kess_os_paranoid_edition.Acpi.{
  Acpi, header_length, header_size, rsdt_addr, rsdt_entry_count, sum_loop, acpi_init,
}
use kess_os_paranoid_edition.Idt.{Idt, idt_set_vec, idt_install, trap_gate_flags, int_gate_flags}
use kess_os_paranoid_edition.Pic.{init_pic}
use kess_os_paranoid_edition.Pit.{
  pit_init, pit_sleep, pit_tick, Event, Timer, using_apic, using_acpi,
}
use kess_os_paranoid_edition.Screen.{Canvas, Framebuffer, Font, clear_screen}
use kess_os_paranoid_edition.Kernel.Cpu.{Cpu, cli, sti, gdt_load, zero_iopl}

-- The handlers that kernel/src/interrupts/exceptions.h and irq.h declare.
pub data Handler : Type 0 where
  div0_handler debug_exception breakpoint_exception overflow_exception : Handler
  boundrange_exceeded_exception invalid_opcode_exception dev_not_avail_exception : Handler
  double_fault invalid_tss_exception stack_segment_fault general_protection_fault : Handler
  segment_not_present page_fault irq0_handler : Handler

-- Where the linker has put what the kernel takes the address of.
pub record Linked : Type 0 where
  pub gdt : ℕ
  pub idt : ℕ
  pub pml4 : ℕ
  pub apic_signature : ℕ
  pub rsdp_signature : ℕ
  pub handler : Handler → ℕ

-- The globals of the kernel's files, the machine's memory with `canvas` and the buffers of numbers in
-- `vmm`, the CPU, and the devices behind the ports.
pub record Machine (S : Type 0) : Type 0 where
  pub vmm : Vmm
  pub idt : Idt
  pub rsdt : ℕ
  pub apic_madt : Option ℕ
  pub kern_flags : ℕ
  pub legacy_mode : ℕ
  pub ticks : ℕ
  pub cpu : Cpu
  pub devices : S

-- `kern_flags` and the numbers of `canvas` as they are compiled in.
abbrev pub initial_flags : ℕ
initial_flags = using_acpi

abbrev pub initial_canvas : Framebuffer → Font → Canvas
initial_canvas lfb font = record { x = 0; y = 55; prev_x = 0; lfb = lfb; font = font }

-- `canvas` with its pointers to the arguments of `_start`.
abbrev pub with_canvas : Framebuffer → Font → Terminal → Terminal
with_canvas lfb font t = record t { canvas = record t.canvas { font = font; lfb = lfb } }

-- Behind `load_pml4` only the first 6 GiB are mapped: whether `acpi_init` reads beyond them, from
-- the RSDP, the RSDT or its entries. The tables lie apart from the frame buffer; of an RSDT whose
-- length does not cover its header every entry counts as read.
unfoldable pub is_beyond : Memory → ℕ → ℕ → Bool
unfolding rsdt_addr header_length rsdt_entry_count sum_loop strncmp
is_beyond m rsdp_signature rsdp =
    let rsdt = rsdt_addr m rsdp in
    let length = header_length m rsdt in
    ltb mapped_end (rsdp + 7)
    || strncmp rsdp rsdp_signature 7 m
      && (ltb mapped_end (rsdp + 20)
          || ltb mapped_end (rsdt + length)
          || (sum_loop length m rsdt 0 0 == 0)
            && ltb mapped_end (rsdt + header_size + 4 * rsdt_entry_count m rsdt))

-- A run of a part, seen from the whole.
abbrev pub within : {S T A : Type 0} → (T → S) → Outcome T A → Outcome S A
within back_in (done a t) = done a (back_in t)
within back_in (halted t) = halted (back_in t)
within back_in (fault t) = fault (back_in t)
within back_in out_of_fuel = out_of_fuel

module _ {S : Type 0} where
  abbrev pub in_vmm : {A : Type 0} → Cmd Vmm A → Cmd (Machine S) A
  in_vmm c s = within (λ v. record s { vmm = v }) (c s.vmm)

  abbrev pub acpi_of : Machine S → Acpi
  acpi_of s = record {
    mem = s.vmm.mem;
    rsdt = s.rsdt;
    apic_madt = s.apic_madt;
    kern_flags = s.kern_flags;
    terminal = s.vmm.terminal;
  }

  abbrev pub with_acpi : Machine S → Acpi → Machine S
  with_acpi s t = record s {
    vmm = record s.vmm { mem = t.mem; terminal = t.terminal };
    rsdt = t.rsdt;
    apic_madt = t.apic_madt;
    kern_flags = t.kern_flags;
  }

  abbrev pub in_acpi : {A : Type 0} → Cmd Acpi A → Cmd (Machine S) A
  in_acpi c s = within (with_acpi s) (c (acpi_of s))

  abbrev pub in_devices : {A : Type 0} → Cmd S A → Cmd (Machine S) A
  in_devices c s = within (λ d. record s { devices = d }) (c s.devices)

  abbrev pub on_cpu : (Cpu → Cpu) → Cmd (Machine S) (Unit {0})
  on_cpu f = modify λ s. record s { cpu = f s.cpu }

  -- The machine with text drawn.
  abbrev pub redrawn : Machine S → Memory → Terminal → Machine S
  redrawn s m t = record s { vmm = record s.vmm { mem = m; terminal = t } }

  abbrev pub log : LogCall → Cmd (Machine S) (Unit {0})
  log call s = print call s.vmm.mem s.vmm.terminal s (redrawn s)

  -- The calls of a journal, whose newest stands first.
  unfoldable pub log_all : Journal → Cmd (Machine S) (Unit {0})
  log_all [] = done tt
  log_all (call ∷ older) = log_all older >> log call

  -- What `pit_sleep` logs draws nothing, so that it does not matter when.
  abbrev pub wake : Machine S → Option (Timer × List Event) → Outcome (Machine S) (Unit {0})
  wake s none = out_of_fuel
  wake s (some (timer, rest)) = log_all timer.journal (record s { ticks = timer.ticks })

  -- Interrupts of the timer that come while they are on. `irq0_handler` counts a tick and ends the
  -- interrupt that the controller has taken, so that the devices are as before, and it does not
  -- matter when it comes. It is taken to return with the registers and the stack kept.
  unfoldable pub interrupted : ℕ → Cmd (Machine S) (Unit {0})
  unfolding pit_tick
  interrupted zero s = done tt s
  interrupted (suc count) s =
      interrupted count
        (record s { ticks = (pit_tick record { ticks = s.ticks; journal = [] }).ticks })

  module _ (linked : Linked) where
    abbrev pub set_vec : ℕ → Handler → ℕ → Cmd (Machine S) (Unit {0})
    set_vec vec handler flags =
        modify λ s. record s { idt = idt_set_vec vec (linked.handler handler) flags s.idt }

    module _ (bus : Bus S) where
      -- The part of `init` up to `idt_install`.
      unfoldable pub set_up_interrupts : Cmd (Machine S) (Unit {0})
      unfolding gdt_load idt_set_vec idt_install
      set_up_interrupts = do
        log (message "Setting up Global Descriptor Table..\n" info)
        on_cpu (gdt_load linked.gdt)
        log (message "Setting up exceptions..\n" info)
        set_vec 0x0 div0_handler trap_gate_flags
        set_vec 0x1 debug_exception trap_gate_flags
        set_vec 0x3 breakpoint_exception trap_gate_flags
        set_vec 0x4 overflow_exception trap_gate_flags
        set_vec 0x5 boundrange_exceeded_exception trap_gate_flags
        set_vec 0x6 invalid_opcode_exception trap_gate_flags
        set_vec 0x7 dev_not_avail_exception trap_gate_flags
        set_vec 0x8 double_fault trap_gate_flags
        set_vec 0xA invalid_tss_exception trap_gate_flags
        set_vec 0xB segment_not_present trap_gate_flags
        set_vec 0xC stack_segment_fault trap_gate_flags
        set_vec 0xD general_protection_fault trap_gate_flags
        set_vec 0xE page_fault trap_gate_flags
        log (message "Setting up IRQs..\n" info)
        set_vec 0x20 irq0_handler int_gate_flags
        log (message "Loading IDTR with Interrupt Descriptor Table Pointer..\n" info)
        modify λ s. record s { idt = idt_install linked.idt s.idt }

      -- The end of `init`: the flag of the APIC is off by then.
      unfoldable pub set_up_timer : Cmd (Machine S) (Unit {0})
      set_up_timer = do
        modify λ s. record s { kern_flags = bit_and s.kern_flags (255 - using_apic) }
        flags ← read λ s. s.kern_flags
        if bit_and flags using_apic == 0
            then in_devices (init_pic bus >> pit_init bus flags)
            else done tt

      -- The handler of a page fault ends in `hlt`: Kernel.Panic has what it draws.
      unfoldable pub set_up_acpi : ℕ → Cmd (Machine S) (Unit {0})
      unfolding is_beyond
      set_up_acpi rsdp s =
          if is_beyond s.vmm.mem linked.rsdp_signature rsdp
          then halted s
          else in_acpi (acpi_init linked.apic_signature linked.rsdp_signature rsdp) s

      -- The part of `init` from ACPI on.
      unfoldable pub set_up_firmware : ℕ → Cmd (Machine S) (Unit {0})
      unfolding set_up_acpi
      set_up_firmware rsdp = do
        log (message "Setting IOPL of EFLAGS to 0 (ring 0 access only).\n" info)
        on_cpu zero_iopl
        log (message "Setting up ACPI..\n" info)
        set_up_acpi rsdp
        set_up_timer

      unfoldable pub init : MemInfo → ℕ → Cmd (Machine S) (Unit {0})
      init meminfo rsdp = do
        set_up_interrupts
        log (message "Setting up L4 paging..\n" info)
        in_vmm (vmm_init linked.pml4 meminfo)
        set_up_firmware rsdp

      -- `pit_sleep` over a schedule of tests and interrupts: `out_of_fuel` where it still spins when
      -- the schedule ends.
      unfoldable pub sleep : ℕ → List Event → Cmd (Machine S) (Unit {0})
      unfolding log_all
      sleep nticks events s =
          wake s (pit_sleep nticks events record { ticks = s.ticks; journal = [] })

      unfoldable pub clear : ℕ → Cmd (Machine S) (Unit {0})
      clear color s =
          let d = clear_screen color record { mem = s.vmm.mem; canvas = s.vmm.terminal.canvas } in
          done tt (redrawn s d.mem (record s.vmm.terminal { canvas = d.canvas }))

      -- `_start` behind `init`, up to its last loop, in which the CPU only waits for interrupts, with
      -- the schedule of `pit_sleep`, and the interrupts that come behind it and behind the last `STI`.
      unfoldable pub finish : List Event → ℕ → ℕ → Cmd (Machine S) (Unit {0})
      unfolding interrupted
      finish events behind during = do
        on_cpu sti
        sleep 200 events
        interrupted behind
        on_cpu cli
        clear 0x000000
        on_cpu sti
        log (message "Hello, World!\n" info)
        interrupted during

      -- The frame buffer and the font are the structs that the arguments point to.
      unfoldable pub start :
          Framebuffer → Font → MemInfo → ℕ → ℕ → List Event → ℕ → ℕ → Cmd (Machine S) (Unit {0})
      start lfb font meminfo rsdp legacy_mode events behind during = do
        modify λ s. record s {
          vmm = record s.vmm { terminal = with_canvas lfb font s.vmm.terminal };
          legacy_mode = u8 legacy_mode;
        }
        log (message "Welcome to KessOS Paranoid Edition!\n" info)
        init meminfo rsdp
        finish events behind during
