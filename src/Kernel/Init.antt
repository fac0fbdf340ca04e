-- ===== src/Kernel/Init.antt =====
-- What `init` of kernel/src/kernel.c leaves.
use kess_os_paranoid_edition.Base.{
  ℕ, ◌+◌, ◌*◌, ◌%◌, ◌^◌, ◌≤◌, ◌<◌, ◌≡◌, ◌⊎◌, refl, arith, bit_and, bit_and_mask, bit_and_digit,
  some, true, Bool-cases, inl, inr,
}
use mathlib.Core.Path.{subst}
use kess_os_paranoid_edition.Memory.{Memory}
use kess_os_paranoid_edition.MemoryMap.{MemDesc, MemInfo, get_mmap_entries}
use kess_os_paranoid_edition.Log.{message, info as info_status}
use kess_os_paranoid_edition.Outcome.{Outcome, Cmd, and_then, Ensures, returns, halts}
use kess_os_paranoid_edition.Ports.{Bus}
use kess_os_paranoid_edition.Vmm.{Vmm, vmm_init}
use kess_os_paranoid_edition.Vmm.Segment.{chosen}
use kess_os_paranoid_edition.Vmm.Init.{
  IsInitialised, IsInitialisedWith, IsInitialised-drawn, IsReached, vmm_init-IsInitialised,
}
use kess_os_paranoid_edition.Vmm.Paging.Reach.{IsExhausted}
use kess_os_paranoid_edition.Vmm.Apart.{IsApart}
use kess_os_paranoid_edition.Vmm.MapApart.{IsMapApart, biggest_loop-Agrees}
use kess_os_paranoid_edition.Screen.{Framebuffer, Font}
use kess_os_paranoid_edition.Screen.Room.{Agrees, Agrees-trans, IsScreen}
use kess_os_paranoid_edition.Kernel.Terminal.{Terminal}
use kess_os_paranoid_edition.Kernel.Drawing.{IsReady, lesser, after_log}
use kess_os_paranoid_edition.Acpi.{Acpi}
use kess_os_paranoid_edition.Acpi.Keeps.{Keeps, keeps, acpi_init-Keeps}
use kess_os_paranoid_edition.Pic.Device.{Chip, Controller, Is8259}
use kess_os_paranoid_edition.Pit.{using_apic}
use kess_os_paranoid_edition.Pit.Device.{Counter, Is8254}
use kess_os_paranoid_edition.Pit
use kess_os_paranoid_edition.Pit.Ready.{pit_init-IsReady}
use kess_os_paranoid_edition.Kernel.Cpu.{zero_iopl, HasFlags, zero_iopl-HasFlags}
use kess_os_paranoid_edition.Kernel.Start.{
  Handler, Linked, Machine, redrawn, acpi_of, with_acpi, within, is_beyond, set_up_timer,
  set_up_acpi, set_up_firmware, init,
}
use kess_os_paranoid_edition.Kernel.Gates.{IsHandled, IsKept, after_interrupts, with_handlers}

-- The segment for page tables, of a map of `n` descriptors.
module _ {S : Type 0} (n : ℕ) (info : MemInfo) (s : Machine S) where
  abbrev pub base : ℕ
  base = (chosen info n s.vmm).phys_addr

  abbrev pub limit : ℕ
  limit = base + 4096 * (chosen info n s.vmm).n_pages

-- Where `init` may stop: without a page for a table, or at tables of ACPI beyond the first 6 GiB.
abbrev pub IsStopped : {S : Type 0} → Linked → ℕ → Machine S → Type 0
IsStopped linked rsdp u =
    IsExhausted u.vmm ⊎ (is_beyond u.vmm.mem linked.rsdp_signature rsdp ≡ true)

module _ {S : Type 0} {Q : Unit {0} → Machine S → Type 0} {H : Machine S → Type 0} where
  after_acpi :
      {fb : Framebuffer} {screen : IsScreen fb} {face : Font} {lines col : ℕ} {m : Memory}
      {o : Outcome Acpi (Unit {0})} (k : Unit {0} → Cmd (Machine S) (Unit {0}))
      → Keeps fb screen face lines col m o
      → (back_in : Acpi → Machine S)
      → ((a : Acpi)
          → Agrees fb m a.mem
          → IsReady fb face lines col a.terminal
          → Ensures Q H (k tt (back_in a)))
      → Ensures Q H (and_then (within back_in o) k)
  after_acpi k (keeps same ready) back_in rest = rest _ same ready

  after_vmm :
      {R : Unit {0} → Vmm → Type 0} {K : Vmm → Type 0} {o : Outcome Vmm (Unit {0})}
      (k : Unit {0} → Cmd (Machine S) (Unit {0}))
      → Ensures R K o
      → (back_in : Vmm → Machine S) → ((v : Vmm) → R tt v → Ensures Q H (k tt (back_in v)))
      → ((v : Vmm) → K v → H (back_in v))
      → Ensures Q H (and_then (within back_in o) k)
  after_vmm k (returns r) back_in rest stop = rest _ r
  after_vmm k (halts h) back_in rest stop = halts (stop _ h)

-- The columns of the longest line that `acpi_init` leaves without a newline.
abbrev pub columns : ℕ
columns = 80

module _ {S : Type 0} (linked : Linked) (bus : Bus S) (chip : Chip → S → Controller)
    (counter : S → Counter) (pics : Is8259 bus chip) (pit : Is8254 bus counter) (fb : Framebuffer)
    (screen : IsScreen fb) (face : Font) where
  -- What `init` leaves: handlers, paging from `base` on, the timer's line alone, interrupts and
  -- port access for others still off, and lines below the cursor.
  pub record IsUp (lines base limit : ℕ) (first s : Machine S) : Type 0 where
    pub handled : IsHandled linked s
    pub paging : IsInitialised linked.pml4 base limit s.vmm
    pub flags : HasFlags 0 s.cpu
    pub timer : Pit.Ready.IsReady bus chip counter pics pit s.devices
    pub no_apic : bit_and s.kern_flags using_apic ≡ 0
    pub kept : IsKept first s
    pub ready : IsReady fb face lines columns s.vmm.terminal

  apic_off : (flags : ℕ) → bit_and (bit_and flags 254) 1 ≡ 0
  apic_off flags = omega (arith, bit_and_mask 1 (bit_and flags 254), bit_and_digit flags 254)

  module _ (lines base limit rsdp : ℕ) (first : Machine S)
      (apart : IsApart fb linked.pml4 base limit) where
    abbrev Ends : Outcome (Machine S) (Unit {0}) → Type 0
    Ends = Ensures (λ _ u. IsUp lines base limit first u) (IsStopped linked rsdp)

    -- A machine in which paging is up.
    module _ (t : Machine S) (handled : IsHandled linked t)
        (paging : IsInitialised linked.pml4 base limit t.vmm) (kept : IsKept first t) where
      abbrev restricted : Memory → Terminal → Machine S
      restricted m term = redrawn (record t { cpu = zero_iopl t.cpu }) m term

      -- Behind `acpi_init`.
      timed :
          (m1 : Memory) (t1 : Terminal) (a : Acpi)
          → Agrees fb t.vmm.mem a.mem
          → IsReady fb face lines columns a.terminal
          → Ends (set_up_timer linked bus (with_acpi (restricted m1 t1) a))
      unfolding set_up_timer zero_iopl
      timed m1 t1 a same ready =
          let flags = bit_and a.kern_flags 254 in
          let off = zero_iopl-HasFlags t.cpu handled.interrupts in
          let (after, runs, up) =
            pit_init-IsReady bus chip counter pics pit flags t.devices (apic_off a.kern_flags) in
          rw (apic_off a.kern_flags, runs)
            (returns record {
              handled = record {
                gates = handled.gates;
                idtr = handled.idtr;
                gdtr = handled.gdtr;
                code = handled.code;
                stack = handled.stack;
                interrupts = off.interrupts;
              };
              paging = IsInitialised-drawn fb apart paging a.mem a.terminal same;
              flags = off;
              timer = up;
              no_apic = apic_off a.kern_flags;
              kept = record { ticks = kept.ticks; legacy_mode = kept.legacy_mode };
              ready = ready;
            })

      set_up_firmware-IsUp :
          IsReady fb face (10 + lines) 0 t.vmm.terminal → Ends (set_up_firmware linked bus rsdp t)
      unfolding set_up_firmware set_up_acpi
      set_up_firmware-IsUp ready =
          after_log fb screen face
            (message "Setting IOPL of EFLAGS to 0 (ring 0 access only).\n" info_status) (10 + lines)
            (9 + lines) 0 t.vmm.mem t.vmm.terminal refl refl (omega arith) ready Ends t (redrawn t)
            _
            λ m1 t1 same1 ready1.
              after_log fb screen face (message "Setting up ACPI..\n" info_status) (9 + lines)
                (8 + lines) 0 m1 t1 refl refl (omega arith) ready1 Ends (restricted m1 t1)
                restricted _
                λ m2 t2 same2 ready2. elim (Bool-cases (is_beyond m2 linked.rsdp_signature rsdp)) [
                  | inl beyond ↦ rw beyond (halts (inr beyond))
                  | inr within_map ↦ rw within_map (
                      after_acpi (λ _. set_up_timer linked bus)
                        (acpi_init-Keeps fb screen face linked.apic_signature linked.rsdp_signature
                          rsdp lines (acpi_of (restricted m2 t2)) ready2)
                        (with_acpi (restricted m2 t2))
                        λ a same ready'.
                          timed m2 t2 a (Agrees-trans fb same1 (Agrees-trans fb same2 same)) ready')
                ]

  module _ (n rsdp : ℕ) (info : MemInfo) (s : Machine S) where
    -- `vmm_init` on a memory that differs from the first in the frame buffer.
    paged :
        (lines : ℕ) (m : Memory) (t : Terminal)
        → get_mmap_entries info ≡ some n
        → linked.pml4 % 4096 ≡ 0
        → base n info s % 4096 ≡ 0
        → limit n info s ≤ 2 ^ 48
        → (linked.pml4 + 4096 ≤ base n info s) ⊎ (limit n info s ≤ linked.pml4)
        → IsApart fb linked.pml4 (base n info s) (limit n info s)
        → IsMapApart fb info n
        → IsReached fb face
        → Agrees fb s.vmm.mem m
        → IsReady fb face (7 + lines) 0 t
        → Ensures
            (IsInitialisedWith fb screen face lines linked.pml4 (base n info s) (limit n info s))
            IsExhausted
            (vmm_init linked.pml4 info (record s.vmm { mem = m; terminal = t }))
    paged lines m t entries aligned segment low apart tables map reached same ready =
        let v : Vmm = record s.vmm { mem = m; terminal = t } in
        let e : chosen info n v ≡ chosen info n s.vmm =
          biggest_loop-Agrees fb info n map s.vmm.mem m same n 0 _ (omega arith) in
        subst
          (λ (d : MemDesc).
            Ensures
              (IsInitialisedWith fb screen face lines linked.pml4 d.phys_addr
                (d.phys_addr + 4096 * d.n_pages))
              IsExhausted (vmm_init linked.pml4 info v))
          e
          (vmm_init-IsInitialised fb screen face linked.pml4 n lines info v entries aligned
            (rw e segment) (rw e low) (rw e apart) (rw e tables) map reached ready)

    pub init-IsUp :
        (lines : ℕ)
        → ((h : Handler) → linked.handler h < 2 ^ 64)
        → ((v : ℕ) → (s.idt.idt v).ist < 2 ^ 3)
        → get_mmap_entries info ≡ some n
        → linked.pml4 % 4096 ≡ 0
        → base n info s % 4096 ≡ 0
        → limit n info s ≤ 2 ^ 48
        → (linked.pml4 + 4096 ≤ base n info s) ⊎ (limit n info s ≤ linked.pml4)
        → IsApart fb linked.pml4 (base n info s) (limit n info s)
        → IsMapApart fb info n
        → IsReached fb face
        → IsReady fb face (22 + lines) 0 s.vmm.terminal
        → Ensures
            (λ _ u. IsUp lines (base n info s) (limit n info s) s u)
            (IsStopped linked rsdp)
            (init linked bus info rsdp s)
    unfolding init
    init-IsUp lines wide stacks entries aligned segment low apart tables map reached ready =
        let Goal = λ (o : Outcome (Machine S) (Unit {0})).
          Ensures (λ _ u. IsUp lines (base n info s) (limit n info s) s u) (IsStopped linked rsdp)
            o in
        after_interrupts linked fb screen face wide bus s stacks _ _ (18 + lines) _
          (lesser fb face (omega arith) (omega arith) ready)
          λ m t handled same ready1.
            let s1 = with_handlers linked s in
            after_log fb screen face (message "Setting up L4 paging..\n" info_status) (18 + lines)
              (17 + lines) 0 m t refl refl (omega arith) ready1 Goal (s1 m t) s1 _
              λ m2 t2 same2 ready2.
                after_vmm (λ _. set_up_firmware linked bus rsdp)
                  (paged (10 + lines) m2 t2 entries aligned segment low apart tables map reached
                    (Agrees-trans fb same same2)
                    (lesser fb face (omega arith) (omega arith) ready2))
                  (λ v. record (s1 m2 t2) { vmm = v })
                  (λ v (x, r).
                    set_up_firmware-IsUp lines (base n info s) (limit n info s) rsdp s tables
                      (record (s1 m2 t2) { vmm = v })
                      record {
                        gates = handled.gates;
                        idtr = handled.idtr;
                        gdtr = handled.gdtr;
                        code = handled.code;
                        stack = handled.stack;
                        interrupts = handled.interrupts;
                      }
                      x record { ticks = refl; legacy_mode = refl } r)
                  (λ v x. inl x)
