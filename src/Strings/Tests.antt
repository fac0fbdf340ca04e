-- ===== src/Strings/Tests.antt =====
-- Tests of kernel/src/util/impl/string.c.
use kess_os_paranoid_edition.Base.{
  arith, ◌-◌, ◌^◌, ◌⊎◌, ◌<◌, ◌↔◌, leb, true, ℕ, zero, suc, ◌+◌, ◌≡◌, refl, Option, none, some, List,
  [], ◌∷◌, ◌==◌, if◌then◌else◌,
}
use kess_os_paranoid_edition.Log.{codes}
use kess_os_paranoid_edition.Memory.{Memory}
use kess_os_paranoid_edition.Strings.{
  pos, negsuc, dec_loop, hex_loop, dec2str, hex2str, strlen, strncmp, strncpy, strncpy_loop,
}
use kess_os_paranoid_edition.Strings.Swap.{IsBytes}
use kess_os_paranoid_edition.Strings.Digits.{dec_glyph}
use kess_os_paranoid_edition.Strings.Number.{Shows}
use kess_os_paranoid_edition.Strings.Decimal.{dec_val, dec2str-Shows, dec2str-neg}
use kess_os_paranoid_edition.Strings.Hexadecimal.{HexShows, hex2str-Shows}
use kess_os_paranoid_edition.Strings.Compare.{IsText, SameBytes, strlen-IsText, strncmp-SameBytes}

-- The text from an index of a buffer on, with at most `fuel` bytes.
shown : ℕ → Memory → ℕ → List ℕ
shown zero m i = []
shown (suc fuel) m i = let rest = shown fuel m (i + 1) in if m i == 0 then [] else m i ∷ rest

show : Option Memory → List ℕ
unfolding shown
show none = []
show (some m) = shown 20 m 0

abbrev dirty : Memory
dirty _ = 77

decimals :
    (show (dec2str (pos 0) dirty) ≡ codes "0")
    × (show (dec2str (pos 1203) dirty) ≡ codes "1203")
    × (show (dec2str (pos 2147483647) dirty) ≡ codes "2147483647")
    × (show (dec2str (negsuc 41) dirty) ≡ codes "-42")
unfolding show dec2str dec_loop
decimals = (refl, refl, refl, refl)

hexadecimals :
    (show (hex2str 0 dirty) ≡ codes "0x00")
    × (show (hex2str 0xe dirty) ≡ codes "0x0E")
    × (show (hex2str 0xdeadbeef dirty) ≡ codes "0xDEADBEEF")
unfolding show hex2str hex_loop
hexadecimals = (refl, refl, refl)

dirty-IsBytes : IsBytes dirty
dirty-IsBytes q = omega arith

dec2str-Shows_example :
    (out : Memory) × (dec2str (pos 1203) dirty ≡ some out) × Shows 10 dec_glyph dec_val 1 out 0 1203
dec2str-Shows_example = dec2str-Shows dirty dirty-IsBytes 1203 (omega arith)

dec2str-neg_example :
    ((41 ≡ 2 ^ 31 - 1) × (dec2str (negsuc 41) dirty ≡ none))
    ⊎ ((out : Memory) × (41 < 2 ^ 31 - 1)
        × (dec2str (negsuc 41) dirty ≡ some out)
        × (out 0 ≡ b'-')
        × Shows 10 dec_glyph dec_val 1 out 1 42)
dec2str-neg_example = dec2str-neg dirty dirty-IsBytes 41 (omega arith)

hex2str-Shows_example : (out : Memory) × (hex2str 0xbeef dirty ≡ some out) × HexShows out 0xbeef
hex2str-Shows_example = hex2str-Shows dirty dirty-IsBytes 0xbeef (omega arith)

-- "ab" at 100, and "ac" at 200.
abbrev texts : Memory
texts a =
    if a == 100
    then b'a'
    else if a == 101
    then b'b'
    else if a == 200
    then b'a'
    else if a == 201
    then b'c'
    else 0

ab-IsText : IsText texts 100 2
ab-IsText = record { shown = λ q h. ground arith; ended = refl }

strlen-IsText_example : strlen 3 texts 100 ≡ some 2
strlen-IsText_example = strlen-IsText 3 texts 100 2 (omega arith) ab-IsText

strncmp-SameBytes_example : strncmp 100 200 1 texts ≡ true ↔ SameBytes texts 100 200 1
strncmp-SameBytes_example =
    strncmp-SameBytes 100 200 1 texts (omega arith) (omega arith) (omega arith)

-- The first call copies the whole text without its NUL, the second stops at `len`.
copies :
    (shown 5
        (strncpy 300 100 9 (λ a. if a == 303 then 0 else if leb 300 a then 77 else texts a))
        300
      ≡ codes "abM")
    × (shown 5 (strncpy 300 100 1 texts) 300 ≡ codes "a")
unfolding shown strncpy strncpy_loop
copies = (refl, refl)
