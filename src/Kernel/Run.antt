-- ===== src/Kernel/Run.antt =====
-- What `_start` of kernel/src/kernel.c comes to.
use kess_os_paranoid_edition.Base.{ℕ, ◌+◌, ◌*◌, ◌^◌, ◌≤◌, ◌<◌, ◌≡◌, arith, List, [], ◌∷◌, ◌++◌, u8}
use kess_os_paranoid_edition.MemoryMap.{MemDesc, MemInfo}
use kess_os_paranoid_edition.Log.{LogCall, message, info as info_status}
use kess_os_paranoid_edition.Outcome
use kess_os_paranoid_edition.Outcome.{Outcome, Cmd, ◌>>◌, Ensures, halts}
use kess_os_paranoid_edition.Ports.{Bus}
use kess_os_paranoid_edition.Pic.Device.{Chip, Controller, Is8259}
use kess_os_paranoid_edition.Pit.{Event, test, irq0, Timer}
use kess_os_paranoid_edition.Pit.Device.{Counter, Is8254}
use kess_os_paranoid_edition.Pit.Sleep.{irqs, Slept, pit_sleep-Slept}
use kess_os_paranoid_edition.Screen.{Framebuffer, Font, Display, clear_screen, kwrite}
use kess_os_paranoid_edition.Screen.Room.{IsScreen, line_width}
use kess_os_paranoid_edition.Vmm.Apart.{IsApart}
use kess_os_paranoid_edition.Vmm.Init.{IsInitialised}
use kess_os_paranoid_edition.Kernel.Drawing.{IsReady, line}
use kess_os_paranoid_edition.Memory.{Memory}
use kess_os_paranoid_edition.Kernel.Terminal.{Terminal}
use kess_os_paranoid_edition.Kernel.Cpu.{HasFlags}
use kess_os_paranoid_edition.Kernel.Init.{IsUp, IsStopped, base, limit}
use kess_os_paranoid_edition.Kernel.Start.{Linked, Machine, with_canvas}

module _ {S : Type 0} (lfb : Framebuffer) (font : Font) (legacy_mode : ℕ) (s : Machine S) where
  -- The machine with the arguments of `_start`.
  abbrev pub given : Machine S
  given = record s {
    vmm = record s.vmm { terminal = with_canvas lfb font s.vmm.terminal };
    legacy_mode = u8 legacy_mode;
  }

pub irqs-append : (a b : List Event) → irqs (a ++ b) ≡ irqs a + irqs b
irqs-append [] b = omega arith
irqs-append (test ∷ a) b = irqs-append a b
irqs-append (irq0 ∷ a) b = omega (arith, irqs-append a b)

-- The last message of `_start`.
abbrev hello : LogCall
hello = message "Hello, World!\n" info_status

module _ {S : Type 0} (linked : Linked) (bus : Bus S) (chip : Chip → S → Controller)
    (counter : S → Counter) (pics : Is8259 bus chip) (pit : Is8254 bus counter) (lfb : Framebuffer)
    (screen : IsScreen lfb) (font : Font) (legacy_mode : ℕ) (s : Machine S) where
  -- The kernel waits for interrupts, which are on: after `init`, and after at least 200 ticks, the
  -- screen has been cleared and the last message drawn.
  pub record IsRunning (lines base limit : ℕ) (u : Machine S) : Type 0 where
    pub before : Machine S
    pub up :
        IsUp linked bus chip counter pics pit lfb screen font lines base limit
          (given lfb font legacy_mode s)
          before
    pub paging : IsInitialised linked.pml4 base limit u.vmm
    pub flags : HasFlags 1 u.cpu
    pub slept : s.ticks + 200 ≤ u.ticks
    pub shown :
        ◌≡◌ {A = Display}
          (record { mem = u.vmm.mem; canvas = u.vmm.terminal.canvas })
          (kwrite (line hello) 0x00FF00 (
            clear_screen 0x000000
              record { mem = before.vmm.mem; canvas = before.vmm.terminal.canvas }))
    pub ready : IsReady lfb font lines 0 u.vmm.terminal
    pub legacy : u.legacy_mode ≡ u8 legacy_mode
    pub handlers : u.idt ≡ before.idt
    pub devices : u.devices ≡ before.devices

  module _ (events later : List Event) (behind during rsdp lines base limit : ℕ) (u : Machine S)
      (apart : IsApart lfb linked.pml4 base limit)
      (up : IsUp linked bus chip counter pics pit lfb screen font lines base limit
        (given lfb font legacy_mode s)
        u)
      (margin : 10 + 8 * line_width ≤ lfb.ppsl) (low : 26 + 20 * (1 + lines) ≤ lfb.height)
      (room : s.ticks + irqs (events ++ (test ∷ later)) + behind + during < 2 ^ 16)
      (enough : 200 ≤ irqs events) where
    -- The timer, as `pit_sleep` finds it.
    abbrev timer : Timer
    timer = record { ticks = u.ticks; journal = [] }

    slept : Slept 200 (events ++ (test ∷ later)) timer
    slept =
        let same = up.kept.ticks in
        let all = irqs-append events (test ∷ later) in
        pit_sleep-Slept 200 events later timer (omega arith) enough

    -- The screen behind `clearScreen`.
    abbrev cleared : Display
    cleared = clear_screen 0x000000 record { mem = u.vmm.mem; canvas = u.vmm.terminal.canvas }

  -- The segment for page tables that the memory map offers.
  module _ (n rsdp lines : ℕ) (info : MemInfo) (events later : List Event) (behind during : ℕ) where
    abbrev Goal : MemDesc → Outcome (Machine S) (Unit {0}) → Type 0
    Goal d =
        Ensures (λ _ u. IsRunning lines d.phys_addr (d.phys_addr + 4096 * d.n_pages) u)
          (IsStopped linked rsdp)
