-- ===== src/Ports.antt =====
-- kernel/src/arch/io/impl/io.c: port I/O. What is behind the ports is a bus with a state `S`.
use kess_os_paranoid_edition.Base.{ℕ, u8, u16, u32}
use kess_os_paranoid_edition.Outcome.{Cmd, done}

-- The instructions `out` and `in` at the three widths. Reading a port may change a device.
pub record Bus (S : Type 0) : Type 0 where
  pub out8 : ℕ → ℕ → S → S
  pub out16 : ℕ → ℕ → S → S
  pub out32 : ℕ → ℕ → S → S
  pub in8 : ℕ → S → ℕ × S
  pub in16 : ℕ → S → ℕ × S
  pub in32 : ℕ → S → ℕ × S

module _ {S : Type 0} (bus : Bus S) where
  abbrev pub inportb : ℕ → Cmd S ℕ
  inportb port s = let result = bus.in8 (u16 port) s in done (u8 result.0) result.1

  abbrev pub outportb : ℕ → ℕ → Cmd S (Unit {0})
  outportb port value s = done tt (bus.out8 (u16 port) (u8 value) s)

  abbrev pub outportw : ℕ → ℕ → Cmd S (Unit {0})
  outportw port value s = done tt (bus.out16 (u16 port) (u16 value) s)

  abbrev pub inportw : ℕ → Cmd S ℕ
  inportw port s = let result = bus.in16 (u16 port) s in done (u16 result.0) result.1

  abbrev pub outportl : ℕ → ℕ → Cmd S (Unit {0})
  outportl port value s = done tt (bus.out32 (u16 port) (u32 value) s)

  abbrev pub inportl : ℕ → Cmd S ℕ
  inportl port s = let result = bus.in32 (u16 port) s in done (u32 result.0) result.1

  abbrev pub io_wait : Cmd S (Unit {0})
  io_wait s = done tt (bus.out8 0x80 0x0 s)
