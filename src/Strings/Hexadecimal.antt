-- ===== src/Strings/Hexadecimal.antt =====
-- `hex2str` of kernel/src/util/impl/string.c, read back.
use kess_os_paranoid_edition.Base.{
  ℕ, zero, suc, ◌+◌, ◌-◌, ◌/◌, ◌%◌, ◌^◌, ◌≤◌, ◌<◌, ◌≡◌, ◌≢◌, refl, ap, ◌∙◌, arith, true, false, ltb,
  ◌==◌, if◌then◌else◌, Bool-cases, inl, inr, some,
}
use mathlib.Core.Path.{subst}
use kess_os_paranoid_edition.Memory.{Memory, store8}
use kess_os_paranoid_edition.Strings.{finish, hex_loop, hex2str, ascii_number, hex_fuel}
use kess_os_paranoid_edition.Strings.Swap.{IsBytes, store8-IsBytes}
use kess_os_paranoid_edition.Strings.Digits.{
  quot, IsWritten, digit_loop-IsWritten, hex_loop-digit_loop,
}
use kess_os_paranoid_edition.Strings.Number.{Shows, finish-text, finish-Shows, not_zero}

abbrev pub hex_val : ℕ → ℕ
hex_val c = if ltb c b'A' then c - b'0' else c - b'A' + 10

hex_inverse : (d : ℕ) → d < 16 → hex_val (ascii_number d) ≡ d
unfolding ascii_number
hex_inverse d h = ground arith

hex_nonzero : (d : ℕ) → d < 16 → ascii_number d ≢ 0
unfolding ascii_number
hex_nonzero d h = ground arith

hex_plain : (d : ℕ) → d < 16 → d ≢ 0 → ascii_number d ≢ b'0'
unfolding ascii_number
hex_plain d h ne = ground arith

-- What the hexadecimal loop leaves.
hex-IsWritten :
    (n : ℕ) (buf : Memory)
    → IsBytes buf
    → n < 2 ^ 32
    → (k : ℕ) × (out : Memory) × (k ≤ 8)
      × (hex_loop hex_fuel n 0 buf ≡ some (k, out))
      × IsWritten 16 ascii_number n 0 k buf out
unfolding ascii_number
hex-IsWritten n buf bytes h =
    let (k, out, bound, run, written) =
      digit_loop-IsWritten 16 ascii_number (omega arith) (λ d k. ground arith) 8 n 0 buf bytes
        (omega arith) (omega arith) in
    (
      k,
      out,
      bound,
      hex_loop-digit_loop hex_fuel n 0 buf ∙ run ∙ ap (λ (t : ℕ). some (t, out)) (omega arith),
      written,
    )

-- A number of at least 16 has two digits.
two_digits : (n k : ℕ) (buf out : Memory) → 16 ≤ n → IsWritten 16 ascii_number n 0 k buf out → 2 ≤ k
two_digits n zero buf out big w = absurd (omega (arith, w.over))
two_digits n (suc zero) buf out big w = absurd (omega (arith, w.over))
two_digits n (suc (suc k)) buf out big w = omega arith

-- The two bytes in front of the digits.
abbrev prefixed : ℕ → Memory → Memory
prefixed k m = store8 (store8 m k b'x') (k + 1) b'0'

module _ (m : Memory) (k : ℕ) (bytes : IsBytes m) where
  prefixed-IsBytes : IsBytes (prefixed k m)
  prefixed-IsBytes = store8-IsBytes (store8 m k b'x') (k + 1) b'0' (store8-IsBytes m k b'x' bytes)

  prefix : (finish (k + 2) (prefixed k m) 0 ≡ b'0') × (finish (k + 2) (prefixed k m) 1 ≡ b'x')
  unfolding store8
  prefix =
      let top : k + 2 - 1 - 0 ≡ k + 1 = omega arith in
      let next : k + 2 - 1 - 1 ≡ k = omega arith in
      (
        finish-text (k + 2) (prefixed k m) 0 prefixed-IsBytes (omega arith) ∙ rw top (ground arith),
        finish-text (k + 2) (prefixed k m) 1 prefixed-IsBytes (omega arith)
            ∙ rw next (ground arith),
      )

-- What stands behind the prefix, and the prefix.
abbrev pub HexShows : Memory → ℕ → Type 0
HexShows out n = (out 0 ≡ b'0') × (out 1 ≡ b'x') × Shows 16 ascii_number hex_val 2 out 2 n

one_digit :
    (n k : ℕ) (buf out : Memory) → n ≢ 0 → n < 16 → IsWritten 16 ascii_number n 0 k buf out → k ≡ 1
one_digit n zero buf out more small w = absurd (more w.over)
one_digit n (suc zero) buf out more small w = refl
one_digit n (suc (suc k)) buf out more small w = absurd (w.least 1 (omega arith) (omega arith))

-- One digit is padded to two.
padded_digits :
    (n : ℕ) (m : Memory)
    → n < 16
    → m 0 ≡ ascii_number n
    → m 1 ≡ b'0'
    → (j : ℕ) → j < 2
    → prefixed 2 m j ≡ ascii_number (quot 16 j n % 16)
unfolding ascii_number store8
padded_digits n m small low pad zero h = low ∙ ap ascii_number (omega arith)
padded_digits n m small low pad (suc zero) h =
    let over : n / 16 % 16 ≡ 0 = omega arith in rw (over, pad) refl
padded_digits n m small low pad (suc (suc j)) h = absurd (omega arith)

padded-HexShows :
    (n : ℕ) (m : Memory)
    → IsBytes m
    → n < 16
    → m 0 ≡ ascii_number n
    → m 1 ≡ b'0'
    → HexShows (finish 4 (prefixed 2 m)) n
padded-HexShows n m bytes small low pad =
    let (digit0, ex) = prefix m 2 bytes in
    (
      digit0,
      ex,
      finish-Shows 16 n ascii_number hex_val (omega arith) hex_inverse hex_nonzero (prefixed 2 m) 2
          2 2 4 (prefixed-IsBytes m 2 bytes) (omega arith) (omega arith) (omega arith) (omega arith)
          (padded_digits n m small low pad) (omega arith) (λ more. absurd (omega arith)),
    )

prefixed-below : (m : Memory) (k j : ℕ) → j < k → prefixed k m j ≡ m j
unfolding store8
prefixed-below m k j h = ground arith

plain-HexShows :
    (n k : ℕ) (buf out : Memory)
    → 16 ≤ n
    → k ≤ 8
    → IsWritten 16 ascii_number n 0 k buf out
    → HexShows (finish (k + 2) (prefixed k out)) n
plain-HexShows n k buf out big narrow w =
    let wide = two_digits n k buf out big w in
    let (digit0, ex) = prefix out k w.bytes in
    (
      digit0,
      ex,
      finish-Shows 16 n ascii_number hex_val (omega arith) hex_inverse hex_nonzero (prefixed k out)
          2 2 k (k + 2) (prefixed-IsBytes out k w.bytes) (omega arith) (omega arith) (omega arith)
          wide (λ j h. prefixed-below out k j h ∙ ap out (omega arith) ∙ w.digit j h) w.over
          (λ h.
            rw (prefixed-below out k (k - 1) (omega arith))
              (not_zero 16 ascii_number (omega arith) hex_plain n k buf out (omega arith) w)),
    )

-- The three ways through `hex2str`.
hex2str_zero :
    (buf : Memory)
    → hex2str 0 buf ≡ some (finish 4 (prefixed 2 (store8 (store8 buf 0 b'0') 1 b'0')))
unfolding hex2str hex_loop
hex2str_zero buf = refl

module _ (n k : ℕ) (buf out : Memory) (more : n ≢ 0)
    (run : hex_loop hex_fuel n 0 buf ≡ some (k, out)) where
  hex2str_pads :
      n < 16 → hex2str n buf ≡ some (finish (k + 1 + 2) (prefixed (k + 1) (store8 out k b'0')))
  unfolding hex2str
  hex2str_pads small =
      let not_zero : n == 0 ≡ false = ground arith in
      let is_small : ltb n 0x10 ≡ true = ground arith in rw (not_zero, run, is_small, hex2str) refl

  hex2str_plain : 16 ≤ n → hex2str n buf ≡ some (finish (k + 2) (prefixed k out))
  unfolding hex2str
  hex2str_plain big =
      let not_zero : n == 0 ≡ false = ground arith in
      let is_big : ltb n 0x10 ≡ false = ground arith in rw (not_zero, run, is_big, hex2str) refl

kept : (m : Memory) → store8 m 1 b'0' 0 ≡ m 0
unfolding store8
kept m = refl

set : (m : Memory) → store8 m 1 b'0' 1 ≡ b'0'
unfolding store8
set m = refl

abbrev pub HexResult : ℕ → Memory → Type 0
HexResult n buf = (out : Memory) × (hex2str n buf ≡ some out) × HexShows out n

module _ (buf : Memory) (bytes : IsBytes buf) where
  zero_shown : HexResult 0 buf
  unfolding store8 ascii_number
  zero_shown =
      let padded = store8 (store8 buf 0 b'0') 1 b'0' in
      (
        finish 4 (prefixed 2 padded),
        hex2str_zero buf,
        padded-HexShows 0 padded (store8-IsBytes _ 1 b'0' (store8-IsBytes buf 0 b'0' bytes))
            (omega arith) refl refl,
      )

  small_shown : (n : ℕ) → n ≢ 0 → n < 16 → HexResult n buf
  small_shown n more small =
      let (k, out, bound, run, w) = hex-IsWritten n buf bytes (omega arith) in
      let one = one_digit n k buf out more small w in
      (
        finish 4 (prefixed 2 (store8 out 1 b'0')),
        hex2str_pads n k buf out more run small
            ∙ ap (λ t. some (finish (t + 1 + 2) (prefixed (t + 1) (store8 out t b'0')))) one,
        padded-HexShows n (store8 out 1 b'0') (store8-IsBytes out 1 b'0' w.bytes) small
            (kept out ∙ w.digit 0 (omega arith) ∙ ap ascii_number (omega arith)) (set out),
      )

  big_shown : (n : ℕ) → 16 ≤ n → n < 2 ^ 32 → HexResult n buf
  big_shown n big h =
      let (k, out, bound, run, w) = hex-IsWritten n buf bytes h in
      (
        finish (k + 2) (prefixed k out),
        hex2str_plain n k buf out (omega arith) run big,
        plain-HexShows n k buf out big bound w,
      )

  -- hex2str of any 32-bit number returns 0x, the hexadecimal digits, at least two and without
  -- further leading zeros, and a NUL: reading them back gives the number.
  pub hex2str-Shows :
      (n : ℕ) → n < 2 ^ 32 → (out : Memory) × (hex2str n buf ≡ some out) × HexShows out n
  hex2str-Shows n h = elim (Bool-cases (n == 0)) [
    | inl none_left ↦ subst (λ t. HexResult t buf) (ground arith) zero_shown
    | inr more ↦ elim (Bool-cases (ltb n 0x10)) [
      | inl small ↦ small_shown n (ground arith) (ground arith)
      | inr big ↦ big_shown n (ground arith) h
    ]
  ]
