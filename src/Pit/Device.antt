-- ===== src/Pit/Device.antt =====
-- Channel 0 of the 8254 as its data sheet documents it, and what `pit_set_freq` and `pit_init` of
-- kernel/src/arch/timer/impl/pit.c program into it.
use kess_os_paranoid_edition.Base.{
  ℕ, ◌+◌, ◌*◌, ◌/◌, ◌%◌, ◌^◌, ◌==◌, ◌≡◌, ◌≢◌, refl, ap, arith, if◌then◌else◌, bit_and, bit_and_mask,
  u8, false,
}
use kess_os_paranoid_edition.Outcome.{done}
use kess_os_paranoid_edition.Ports.{Bus}
use kess_os_paranoid_edition.Pit.{channel0, channel3, pit_set_freq}

-- In the two-byte mode a count is written low byte first.
pub data Access : Type 0 where
  low_next : Access
  high_next : ℕ → Access

-- `reload` is the count; 0 stands for 65536.
pub record Counter : Type 0 where
  pub access : Access
  pub reload : ℕ

abbrev pub write_count : ℕ → Access → Counter → Counter
write_count v low_next c = record c { access = high_next v }
write_count v (high_next low) c = record { access = low_next; reload = low + v * 2 ^ 8 }

abbrev pub respond : (ℕ → Counter → Counter) → ℕ → ℕ → Counter → Counter
respond command port v c =
    if port == channel3
    then command v c
    else if port == channel0
    then write_count v c.access c
    else c

-- `counter` observes channel 0 of a bus. Of the commands, only the kernel's is described: two-byte
-- access, square wave.
pub record Is8254 {S : Type 0} (bus : Bus S) (counter : S → Counter) : Type 0 where
  pub command : ℕ → Counter → Counter
  pub writes :
      (port v : ℕ) (s : S) → counter (bus.out8 port v s) ≡ respond command port v (counter s)
  pub reads : (port : ℕ) (s : S) → counter ((bus.in8 port s).1) ≡ counter s
  pub square_wave : (c : Counter) → command 0x36 c ≡ record c { access = low_next }

module _ {S : Type 0} (bus : Bus S) (counter : S → Counter) (device : Is8254 bus counter) where
  abbrev pub programmed : ℕ → S → S
  programmed freq_hz s = bus.out8 channel0 (u8 (1193180 / freq_hz / 2 ^ 8)) (
      bus.out8 0x80 0
        (bus.out8 channel0 (u8 (bit_and (1193180 / freq_hz) 0xFF)) (bus.out8 channel3 0x36 s)))

  -- On a timer that behaves as the 8254 is documented, pit_set_freq of a frequency other than 0
  -- sets the count of channel 0 to 1193180 divided by it, as 16 bits.
  pub pit_set_freq_lem :
      (freq_hz : ℕ) (s : S)
      → freq_hz ≢ 0
      → (after : S) × (pit_set_freq bus freq_hz s ≡ done tt after)
        × (counter after ≡ record { access = low_next; reload = 1193180 / freq_hz % 2 ^ 16 })
  unfolding pit_set_freq
  pit_set_freq_lem freq_hz s ne =
      let some_freq : freq_hz == 0 ≡ false = ground arith in
      let count : u8 (bit_and (1193180 / freq_hz) 0xFF) + u8 (1193180 / freq_hz / 2 ^ 8) * 2 ^ 8
          ≡ 1193180 / freq_hz % 2 ^ 16 =
        omega (arith, bit_and_mask 8 (1193180 / freq_hz)) in
      (
        programmed freq_hz s,
        rw some_freq refl,
        simp (device.writes, device.square_wave)
            (ap (λ (t : ℕ). record { access = low_next; reload = t }) count),
      )
