-- ===== src/Pit.antt =====
-- kernel/src/arch/timer/impl/pit.c: the interval timer and its tick count, and irq0_handler's call
-- of it.
pub mod Device
pub mod Ready
pub mod Tests
pub mod Sleep
use kess_os_paranoid_edition.Base.{
  ℕ, zero, suc, ◌+◌, ◌-◌, ◌*◌, ◌/◌, ◌%◌, ◌^◌, bit_and, Bool, true, false, Option, none, some, List,
  [], ◌∷◌, ◌==◌, ltb, if◌then◌else◌, u8, u16, u32, ◌>>>◌,
}
use kess_os_paranoid_edition.Log.{Status, plain, Arg, int, LogCall, Journal}
use kess_os_paranoid_edition.Outcome.{Outcome, Cmd, done, fault, ◌>>=◌, ◌>>◌}
use kess_os_paranoid_edition.Ports.{Bus, inportb, outportb, io_wait}
use kess_os_paranoid_edition.Pic.{pic1_data}

abbrev pub channel0 : ℕ
channel0 = 0x40

abbrev pub channel1 : ℕ
channel1 = 0x41

abbrev pub channel2 : ℕ
channel2 = 0x42

abbrev pub channel3 : ℕ
channel3 = 0x43

-- Bit 0 of `kern_flags`, from kernel/src/util/kernflags.h, and bit 1.
abbrev pub using_apic : ℕ
using_apic = 1

abbrev pub using_acpi : ℕ
using_acpi = 2

module _ {S : Type 0} (bus : Bus S) where
  -- A frequency of 0 is a divide error.
  unfoldable pub pit_set_freq : ℕ → Cmd S (Unit {0})
  pit_set_freq freq_hz = if freq_hz == 0 then fault else do
    outportb bus channel3 0x36
    outportb bus channel0 (bit_and (1193180 / freq_hz) 0xFF)
    io_wait bus
    outportb bus channel0 ((1193180 / freq_hz) >>> 8)

  -- `& ~(1)` on the byte that was read.
  unfoldable pub pit_init : ℕ → Cmd S (Unit {0})
  unfolding pit_set_freq
  pit_init kern_flags = do
    pit_set_freq 100
    if bit_and kern_flags using_apic == 0
        then inportb bus pic1_data >>= (λ mask. outportb bus pic1_data (bit_and mask 0xFE))
        else done tt

-- The static `ticks`, and the log that UNGLITCH_ARG calls.
pub record Timer : Type 0 where
  pub ticks : ℕ
  pub journal : Journal

unfoldable pub pit_tick : Timer → Timer
pit_tick t = record t { ticks = u16 (t.ticks + 1) }

-- UNGLITCH_ARG of kernel/src/util/etc.h: it draws nothing.
abbrev pub unglitch_arg : ℕ → Timer → Timer
unglitch_arg arg t = record t {
  journal = record { format = []; status = plain; args = int arg ∷ [] } ∷ t.journal;
}

-- What happens while `pit_sleep` spins: a test of its loop, or the handler of IRQ 0.
pub data Event : Type 0 where
  test irq0 : Event

-- The loop over a schedule: `none` if it still spins where the schedule ends, else the timer and
-- the rest of the schedule.
unfoldable pub sleep_loop : ℕ → List Event → Timer → Option (Timer × List Event)
unfolding pit_tick
sleep_loop eticks [] t = none
sleep_loop eticks (test ∷ events) t =
    let rest = sleep_loop eticks events t in if ltb t.ticks eticks then rest else some (t, events)
sleep_loop eticks (irq0 ∷ events) t = sleep_loop eticks events (pit_tick t)

unfoldable pub pit_sleep : ℕ → List Event → Timer → Option (Timer × List Event)
unfolding sleep_loop
pit_sleep nticks events t = sleep_loop (u32 (t.ticks + nticks)) events (unglitch_arg nticks t)
