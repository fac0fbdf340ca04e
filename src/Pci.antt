-- ===== src/Pci.antt =====
-- kernel/src/arch/pci/impl/pci.c: the configuration space, through ports 0xCF8 and 0xCFC.
pub mod Bars
pub mod Config
mod Tests
use kess_os_paranoid_edition.Base.{
  ℕ, ◌+◌, ◌*◌, ◌/◌, ◌%◌, ◌^◌, bit_and, bit_or, Bool, not, ◌==◌, u8, u16, u32, ◌<<<◌, ◌>>>◌,
}
use kess_os_paranoid_edition.Outcome.{Cmd, Outcome, done, ◌>>=◌, ◌>>◌}
use kess_os_paranoid_edition.Ports.{Bus, inportl, outportl}

abbrev pub config_addr : ℕ
config_addr = 0xCF8

abbrev pub config_data : ℕ
config_data = 0xCFC

-- `addr` of `pci_read_word`.
unfoldable pub config_address : ℕ → ℕ → ℕ → ℕ → ℕ
config_address bus slot func offset = u32 (
    bit_or
      (bit_or (bit_or (bit_or (u32 (bus <<< 16)) (u32 (slot <<< 11))) (u32 (func <<< 8)))
        (bit_and offset 0xFC))
      0x80000000)

unfoldable pub pci_valid_vendor : ℕ → Bool
pci_valid_vendor vendor_id = not (vendor_id == 0xFFFF)

module _ {S : Type 0} (ports : Bus S) where
  unfoldable pub pci_read_word : ℕ → ℕ → ℕ → ℕ → Cmd S ℕ
  unfolding config_address
  pci_read_word bus slot func offset = do
    outportl ports config_addr (config_address bus slot func offset)
    value ← inportl ports config_data
    done (u16 (bit_and (value >>> (bit_and offset 2 * 2)) 0xFFFF))

  unfoldable pub pci_get_vendor_id : ℕ → ℕ → ℕ → Cmd S ℕ
  unfolding pci_read_word
  pci_get_vendor_id bus slot func = pci_read_word bus slot func 0x0

  unfoldable pub pci_get_device_id : ℕ → ℕ → ℕ → Cmd S ℕ
  unfolding pci_read_word
  pci_get_device_id bus slot func = pci_read_word bus slot func 0x2

  unfoldable pub pci_get_revision_id : ℕ → ℕ → ℕ → Cmd S ℕ
  unfolding pci_read_word
  pci_get_revision_id bus slot func =
      pci_read_word bus slot func 0x8 >>= λ word. done (bit_and word 0xFF)

  unfoldable pub pci_get_prog_if : ℕ → ℕ → ℕ → Cmd S ℕ
  unfolding pci_read_word
  pci_get_prog_if bus slot func = pci_read_word bus slot func 0x8 >>= λ word. done (u8 (word >>> 8))

  unfoldable pub pci_get_subclass_id : ℕ → ℕ → ℕ → Cmd S ℕ
  unfolding pci_read_word
  pci_get_subclass_id bus slot func =
      pci_read_word bus slot func 0xA >>= λ word. done (bit_and word 0xFF)

  unfoldable pub pci_get_classid : ℕ → ℕ → ℕ → Cmd S ℕ
  unfolding pci_read_word
  pci_get_classid bus slot func = pci_read_word bus slot func 0xA >>= λ word. done (u8 (word >>> 8))

  -- The common shape of `pci_get_bar0` to `pci_get_bar5`: two words as one. The shift of a word with
  -- its top bit set leaves the `int` of C; the 32 bits are kept, as compilers do.
  abbrev pub bar_words : ℕ → ℕ → ℕ → ℕ → ℕ → Cmd S ℕ
  bar_words high low bus slot func = do
    upper ← pci_read_word bus slot func high
    lower ← pci_read_word bus slot func low
    done (bit_or (u32 (upper <<< 16)) lower)

  -- The first word is read at 0x13.
  unfoldable pub pci_get_bar0 : ℕ → ℕ → ℕ → Cmd S ℕ
  unfolding pci_read_word
  pci_get_bar0 = bar_words 0x13 0x10

  unfoldable pub pci_get_bar1 : ℕ → ℕ → ℕ → Cmd S ℕ
  unfolding pci_read_word
  pci_get_bar1 = bar_words 0x16 0x14

  unfoldable pub pci_get_bar2 : ℕ → ℕ → ℕ → Cmd S ℕ
  unfolding pci_read_word
  pci_get_bar2 = bar_words 0x1A 0x18

  unfoldable pub pci_get_bar3 : ℕ → ℕ → ℕ → Cmd S ℕ
  unfolding pci_read_word
  pci_get_bar3 = bar_words 0x1E 0x1C

  unfoldable pub pci_get_bar4 : ℕ → ℕ → ℕ → Cmd S ℕ
  unfolding pci_read_word
  pci_get_bar4 = bar_words 0x22 0x20

  unfoldable pub pci_get_bar5 : ℕ → ℕ → ℕ → Cmd S ℕ
  unfolding pci_read_word
  pci_get_bar5 = bar_words 0x26 0x24
