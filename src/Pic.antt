-- ===== src/Pic.antt =====
-- kernel/src/arch/io/impl/legacy-pic.c: the two interrupt controllers of the PC.
pub mod Device
pub mod Setup
use kess_os_paranoid_edition.Base.{ℕ, leb, if◌then◌else◌, bit_or}
use kess_os_paranoid_edition.Outcome.{Cmd, done, ◌>>=◌, ◌>>◌}
use kess_os_paranoid_edition.Ports.{Bus, outportb, io_wait}

abbrev pub pic1_command : ℕ
pic1_command = 0x20

abbrev pub pic1_data : ℕ
pic1_data = 0x21

abbrev pub pic2_command : ℕ
pic2_command = 0xA0

abbrev pub pic2_data : ℕ
pic2_data = 0xA1

abbrev pub icw1_init : ℕ
icw1_init = 0x10

abbrev pub icw1_icw4 : ℕ
icw1_icw4 = 0x01

abbrev pub icw4_8086 : ℕ
icw4_8086 = 0x01

abbrev pub pic_eoi : ℕ
pic_eoi = 0x20

module _ {S : Type 0} (bus : Bus S) where
  unfoldable pub init_pic : Cmd S (Unit {0})
  init_pic = do
    outportb bus pic1_command (bit_or icw1_init icw1_icw4)
    io_wait bus
    outportb bus pic2_command (bit_or icw1_init icw1_icw4)
    io_wait bus
    outportb bus pic1_data 0x20
    io_wait bus
    outportb bus pic2_data 0x28
    io_wait bus
    outportb bus pic1_data 4
    io_wait bus
    outportb bus pic2_data 2
    io_wait bus
    outportb bus pic1_data icw4_8086
    io_wait bus
    outportb bus pic2_data icw4_8086
    io_wait bus
    outportb bus pic1_data 0xFF
    io_wait bus
    outportb bus pic2_data 0xFF

  unfoldable pub pic_send_eoi : ℕ → Cmd S (Unit {0})
  pic_send_eoi irq =
      (if leb 8 irq then outportb bus pic2_command pic_eoi else done tt)
      >> outportb bus pic1_command pic_eoi
