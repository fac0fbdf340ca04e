-- ===== src/Pci/Bars.antt =====
-- `pci_get_bar0` to `pci_get_bar5` of kernel/src/arch/pci/impl/pci.c.
use kess_os_paranoid_edition.Base.{
  ℕ, ◌+◌, ◌*◌, ◌/◌, ◌%◌, ◌^◌, ◌<◌, ◌≡◌, refl, ap, ◌∙◌, arith, bit_or, u32, bit_or_field,
}
use kess_os_paranoid_edition.Outcome.{done}
use kess_os_paranoid_edition.Ports.{Bus}
use kess_os_paranoid_edition.Pci.{
  pci_read_word, bar_words, pci_get_bar0, pci_get_bar1, pci_get_bar2, pci_get_bar3, pci_get_bar4,
  pci_get_bar5,
}
use kess_os_paranoid_edition.Pci.Config.{selector, IsConfig, Reads, pci_read_word-Reads}

-- The two words that are put together of a register: bits 4 to 19 above bits 0 to 15.
abbrev pub bar_value : ℕ → ℕ
bar_value v = v / 2 ^ 4 % 2 ^ 16 * 2 ^ 16 + v % 2 ^ 16

join_words : (v : ℕ) → bit_or (u32 (v / 2 ^ 4 % 2 ^ 16 * 2 ^ 16)) (v % 2 ^ 16) ≡ bar_value v
join_words v =
    let fits : u32 (v / 2 ^ 4 % 2 ^ 16 * 2 ^ 16) ≡ v / 2 ^ 4 % 2 ^ 16 * 2 ^ 16 = omega arith in
    ap (λ t. bit_or t (v % 2 ^ 16)) fits
    ∙ bit_or_field 16 (v / 2 ^ 4 % 2 ^ 16) (v % 2 ^ 16) (omega arith)

module _ (bus slot func : ℕ) (in_bus : bus < 256) (in_slot : slot < 32) (in_func : func < 8)
    {S : Type 0} (ports : Bus S) (register : ℕ → S → ℕ) (space : IsConfig ports register) where
  bar_words-Reads :
      (high low number : ℕ) (s : S)
      → high < 256
      → low < 256
      → high / 4 ≡ number
      → low / 4 ≡ number
      → high / 2 % 2 ≡ 1
      → low / 2 % 2 ≡ 0
      → Reads register
          (bar_words ports high low bus slot func s)
          (bar_value (register (selector bus slot func number) s))
          s
  bar_words-Reads high low number s h1 h2 same1 same2 odd even =
      let upper =
        pci_read_word-Reads bus slot func in_bus in_slot in_func ports register space high s h1 in
      let lower =
        pci_read_word-Reads bus slot func in_bus in_slot in_func ports register space low
          upper.after h2 in
      let v = register (selector bus slot func number) s in
      let hi : register (selector bus slot func (high / 4)) s / 2 ^ (high / 2 % 2 * 4) % 2 ^ 16
          ≡ v / 2 ^ 4 % 2 ^ 16 =
        rw (same1, odd) refl in
      let lo : register (selector bus slot func (low / 4)) upper.after
            / 2 ^ (low / 2 % 2 * 4)
            % 2 ^ 16
          ≡ v % 2 ^ 16 =
        rw (same2, even, upper.keeps) (omega arith) in
      record {
        after = lower.after;
        returns =
            joined high low s upper.after lower.after _ _ upper.returns lower.returns
            ∙ ap (λ t. done t lower.after) (rw (hi, lo) (join_words v));
        keeps = λ a. lower.keeps a ∙ upper.keeps a;
      }
    where
      joined :
          (high low : ℕ) (s s1 s2 : S) (upper lower : ℕ)
          → pci_read_word ports bus slot func high s ≡ done upper s1
          → pci_read_word ports bus slot func low s1 ≡ done lower s2
          → bar_words ports high low bus slot func s ≡ done (bit_or (u32 (upper * 2 ^ 16)) lower) s2
      joined high low s s1 s2 upper lower first second = rw (first, second) refl

  -- For a bus below 256, a slot below 32 and a function below 8, pci_get_bar0 to pci_get_bar5
  -- return bits 4 to 19 of registers 4 to 9 above their bits 0 to 15, and leave the configuration
  -- space as it was.
  pub pci_bars-Reads :
      (s : S)
      → Reads register
          (pci_get_bar0 ports bus slot func s)
          (bar_value (register (selector bus slot func 4) s))
          s
        × Reads register
            (pci_get_bar1 ports bus slot func s)
            (bar_value (register (selector bus slot func 5) s))
            s
        × Reads register
            (pci_get_bar2 ports bus slot func s)
            (bar_value (register (selector bus slot func 6) s))
            s
        × Reads register
            (pci_get_bar3 ports bus slot func s)
            (bar_value (register (selector bus slot func 7) s))
            s
        × Reads register
            (pci_get_bar4 ports bus slot func s)
            (bar_value (register (selector bus slot func 8) s))
            s
        × Reads register
            (pci_get_bar5 ports bus slot func s)
            (bar_value (register (selector bus slot func 9) s))
            s
  unfolding pci_get_bar0 pci_get_bar1 pci_get_bar2 pci_get_bar3 pci_get_bar4 pci_get_bar5
  pci_bars-Reads s = (
    bar_words-Reads 0x13 0x10 4 s (omega arith) (omega arith) refl refl refl refl,
    bar_words-Reads 0x16 0x14 5 s (omega arith) (omega arith) refl refl refl refl,
    bar_words-Reads 0x1A 0x18 6 s (omega arith) (omega arith) refl refl refl refl,
    bar_words-Reads 0x1E 0x1C 7 s (omega arith) (omega arith) refl refl refl refl,
    bar_words-Reads 0x22 0x20 8 s (omega arith) (omega arith) refl refl refl refl,
    bar_words-Reads 0x26 0x24 9 s (omega arith) (omega arith) refl refl refl refl,
  )
