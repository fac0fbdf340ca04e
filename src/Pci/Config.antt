-- ===== src/Pci/Config.antt =====
-- What the functions of kernel/src/arch/pci/impl/pci.c read of a device's configuration registers.
use kess_os_paranoid_edition.Base.{
  ℕ, ◌+◌, ◌*◌, ◌/◌, ◌%◌, ◌^◌, ◌<◌, ◌≡◌, ap, ◌∙◌, arith, bit_and, bit_or, u8, u32, bit_or_field,
  bit_or_over, bit_and_frame, bit_and_mask,
}
use kess_os_paranoid_edition.Outcome.{Outcome, done, and_then}
use kess_os_paranoid_edition.Ports.{Bus}
use kess_os_paranoid_edition.Pci.{
  config_address, pci_read_word, pci_get_vendor_id, pci_get_device_id, pci_get_revision_id,
  pci_get_prog_if, pci_get_subclass_id, pci_get_classid,
}

-- The address of a register, as configuration mechanism 1 documents it.
abbrev pub selector : ℕ → ℕ → ℕ → ℕ → ℕ
selector bus slot func register =
    2 ^ 31 + bus * 2 ^ 16 + slot * 2 ^ 11 + func * 2 ^ 8 + register * 4

-- `register` observes the configuration space behind a bus: a register is read at 0xCFC once its
-- address is written to 0xCF8, and neither changes the space.
pub record IsConfig {S : Type 0} (ports : Bus S) (register : ℕ → S → ℕ) : Type 0 where
  pub small : (address : ℕ) (s : S) → register address s < 2 ^ 32
  pub selects :
      (address a : ℕ) (s : S) → register address (ports.out32 0xCF8 a s) ≡ register address s
  pub reads : (a : ℕ) (s : S) → (ports.in32 0xCFC (ports.out32 0xCF8 a s)).0 ≡ register a s
  pub keeps : (address a : ℕ) (s : S) → register address ((ports.in32 a s).1) ≡ register address s

-- What a command returns, where it leaves the configuration space as it was.
pub record Reads {S : Type 0} (register : ℕ → S → ℕ) (o : Outcome S ℕ) (value : ℕ) (s : S)
    : Type 0 where
  pub after : S
  pub returns : o ≡ done value after
  pub keeps : (address : ℕ) → register address after ≡ register address s

module _ (bus slot func : ℕ) (in_bus : bus < 256) (in_slot : slot < 32) (in_func : func < 8) where
  -- A register offset is rounded down to a multiple of 4.
  pub config_address-selector :
      (offset : ℕ)
      → offset < 256
      → config_address bus slot func offset ≡ selector bus slot func (offset / 4)
  unfolding config_address
  config_address-selector offset in_offset =
      let bus_bits : u32 (bus * 2 ^ 16) ≡ bus * 2 ^ 16 = omega arith in
      let slot_bits : u32 (slot * 2 ^ 11) ≡ slot * 2 ^ 11 = omega arith in
      let func_bits : u32 (func * 2 ^ 8) ≡ func * 2 ^ 8 = omega arith in
      let offset_bits : bit_and offset 0xFC ≡ offset / 4 * 4 =
        bit_and_frame 2 6 offset ∙ omega arith in
      let with_slot : bit_or (bus * 2 ^ 16) (slot * 2 ^ 11) ≡ (bus * 32 + slot) * 2 ^ 11 =
        bit_or_field 16 bus (slot * 2 ^ 11) (omega arith) ∙ omega arith in
      let with_func : bit_or ((bus * 32 + slot) * 2 ^ 11) (func * 2 ^ 8)
          ≡ ((bus * 32 + slot) * 8 + func) * 2 ^ 8 =
        bit_or_field 11 (bus * 32 + slot) (func * 2 ^ 8) (omega arith) ∙ omega arith in
      let with_offset : bit_or (((bus * 32 + slot) * 8 + func) * 2 ^ 8) (offset / 4 * 4)
          ≡ ((bus * 32 + slot) * 8 + func) * 2 ^ 8 + offset / 4 * 4 =
        bit_or_field 8 ((bus * 32 + slot) * 8 + func) (offset / 4 * 4) (omega arith) in
      let with_top : bit_or (((bus * 32 + slot) * 8 + func) * 2 ^ 8 + offset / 4 * 4) 0x80000000
          ≡ selector bus slot func (offset / 4) =
        bit_or_over 31 1 (((bus * 32 + slot) * 8 + func) * 2 ^ 8 + offset / 4 * 4) (omega arith)
        ∙ omega arith in
      rw (bus_bits, slot_bits, func_bits, offset_bits, with_slot, with_func, with_offset, with_top)
        (omega arith)

  module _ {S : Type 0} (ports : Bus S) (register : ℕ → S → ℕ)
      (space : IsConfig ports register) where
    abbrev reg : ℕ → S → ℕ
    reg number s = register (selector bus slot func number) s

    after_read : ℕ → S → S
    after_read offset s =
        (ports.in32 0xCFC (ports.out32 0xCF8 (u32 (config_address bus slot func offset)) s)).1

    -- For a bus below 256, a slot below 32, a function below 8 and a byte offset, on a bus with
    -- configuration mechanism 1, pci_read_word selects the register that has the offset and
    -- returns its low 16 bits, or bits 4 to 19 if bit 1 of the offset is set, and leaves the
    -- configuration space as it was.
    pub pci_read_word-Reads :
        (offset : ℕ) (s : S)
        → offset < 256
        → Reads register
            (pci_read_word ports bus slot func offset s)
            (register (selector bus slot func (offset / 4)) s / 2 ^ (offset / 2 % 2 * 4) % 2 ^ 16)
            s
    unfolding pci_read_word after_read
    pci_read_word-Reads offset s h =
        let selected : u32 (config_address bus slot func offset)
            ≡ selector bus slot func (offset / 4) =
          ap u32 (config_address-selector offset h) ∙ omega arith in
        let value : u32
              (ports.in32 0xCFC (ports.out32 0xCF8 (u32 (config_address bus slot func offset)) s)).0
            ≡ reg (offset / 4) s =
          ap u32 (space.reads _ s ∙ ap (λ a. register a s) selected)
          ∙ omega (arith, space.small (selector bus slot func (offset / 4)) s) in
        let half : bit_and offset 2 * 2 ≡ offset / 2 % 2 * 4 =
          ap (λ (t : ℕ). t * 2) (bit_and_frame 1 1 offset) ∙ omega arith in
        record {
          after = after_read offset s;
          returns =
              ap (λ t. done t (after_read offset s))
                (rw (value, half, bit_and_mask 16) (omega arith));
          keeps = λ a. space.keeps a 0xCFC _ ∙ space.selects a _ s;
        }

    -- A word's low or high byte.
    map_read :
        {o : Outcome S ℕ} {value : ℕ} {s : S} (f : ℕ → ℕ)
        → Reads register o value s
        → Reads register (and_then o (λ word. done (f word))) (f value) s
    map_read f r = record {
      after = r.after;
      returns = ap (λ o. and_then o (λ word. done (f word))) r.returns;
      keeps = r.keeps;
    }

    convert :
        {o : Outcome S ℕ} {value other : ℕ} {s : S}
        → value ≡ other
        → Reads register o value s
        → Reads register o other s
    convert e r = record {
      after = r.after;
      returns = r.returns ∙ ap (λ t. done t r.after) e;
      keeps = r.keeps;
    }

    -- For a bus below 256, a slot below 32 and a function below 8, pci_get_vendor_id,
    -- pci_get_revision_id and pci_get_prog_if return bits 0 to 15 of register 0 and bits 0 to 7
    -- and 8 to 15 of register 2, where these fields are, while pci_get_device_id,
    -- pci_get_subclass_id and pci_get_classid return bits 4 to 19 of register 0 and bits 4 to 11
    -- and 12 to 19 of register 2.
    pub pci_ids-Reads :
        (s : S)
        → Reads register
            (pci_get_vendor_id ports bus slot func s)
            (register (selector bus slot func 0) s % 2 ^ 16)
            s
          × Reads register
              (pci_get_device_id ports bus slot func s)
              (register (selector bus slot func 0) s / 2 ^ 4 % 2 ^ 16)
              s
          × Reads register
              (pci_get_revision_id ports bus slot func s)
              (register (selector bus slot func 2) s % 2 ^ 8)
              s
          × Reads register
              (pci_get_prog_if ports bus slot func s)
              (register (selector bus slot func 2) s / 2 ^ 8 % 2 ^ 8)
              s
          × Reads register
              (pci_get_subclass_id ports bus slot func s)
              (register (selector bus slot func 2) s / 2 ^ 4 % 2 ^ 8)
              s
          × Reads register
              (pci_get_classid ports bus slot func s)
              (register (selector bus slot func 2) s / 2 ^ 12 % 2 ^ 8)
              s
    unfolding pci_get_vendor_id pci_get_device_id pci_get_revision_id pci_get_prog_if
        pci_get_subclass_id pci_get_classid
    pci_ids-Reads s = (
      convert (omega arith) (pci_read_word-Reads 0x0 s (omega arith)),
      pci_read_word-Reads 0x2 s (omega arith),
      convert (rw (bit_and_mask 8) (omega arith))
          (map_read (λ word. bit_and word 0xFF) (pci_read_word-Reads 0x8 s (omega arith))),
      convert (omega arith)
          (map_read (λ word. u8 (word / 2 ^ 8)) (pci_read_word-Reads 0x8 s (omega arith))),
      convert (rw (bit_and_mask 8) (omega arith))
          (map_read (λ word. bit_and word 0xFF) (pci_read_word-Reads 0xA s (omega arith))),
      convert (omega arith)
          (map_read (λ word. u8 (word / 2 ^ 8)) (pci_read_word-Reads 0xA s (omega arith))),
    )
