-- ===== src/Kernel/Numeral.antt =====
-- The text of a number that `log` of kernel/src/kernel.c writes for `%d` and `%x`.
use kess_os_paranoid_edition.Base.{
  ℕ, zero, suc, ◌+◌, ◌-◌, ◌*◌, ◌^◌, ◌≤◌, ◌<◌, ◌≡◌, ◌≢◌, refl, ap, ◌∙◌, arith, true, false, inl, inr,
  some, List, [], ◌∷◌, ◌==◌,
}
use mathlib.Core.Path.{subst}
use kess_os_paranoid_edition.Memory.{Memory}
use kess_os_paranoid_edition.Screen.Cursor.{length}
use kess_os_paranoid_edition.Strings.{ℤ, pos, negsuc, ascii_number, dec2str, hex2str}
use kess_os_paranoid_edition.Strings.Swap.{IsBytes}
use kess_os_paranoid_edition.Strings.Digits.{dec_glyph}
use kess_os_paranoid_edition.Strings.Number.{IsDigit, Shows, read_digits}
use kess_os_paranoid_edition.Strings.Decimal.{dec_val, dec2str-Shows, dec2str-neg}
use kess_os_paranoid_edition.Strings.Hexadecimal.{hex_val, hex2str-Shows}
use kess_os_paranoid_edition.Kernel.Console.{text_at}

-- The number that a text of digits stands for, behind those that gave `acc`.
abbrev pub read_text : ℕ → (ℕ → ℕ) → List ℕ → ℕ → ℕ
read_text base val [] acc = acc
read_text base val (c ∷ cs) acc = read_text base val cs (acc * base + val c)

abbrev pub first : List ℕ → ℕ
first [] = 0
first (c ∷ cs) = c

abbrev pub AreDigits : ℕ → (ℕ → ℕ) → List ℕ → Type 0
AreDigits base glyph [] = Unit {0}
AreDigits base glyph (c ∷ cs) = IsDigit base glyph c × AreDigits base glyph cs

-- A text of at least `width` digits, at most ten and with no other leading zero, that stands for `n`.
pub record IsNumeral (base : ℕ) (glyph val : ℕ → ℕ) (width n : ℕ) (t : List ℕ) : Type 0 where
  pub digits : AreDigits base glyph t
  pub wide : width ≤ length t
  pub narrow : length t ≤ 10
  pub value : read_text base val t 0 ≡ n
  pub leading : width < length t → first t ≢ b'0'

abbrev pub IsDecimal : ℤ → List ℕ → Type 0
IsDecimal (pos n) t = IsNumeral 10 dec_glyph dec_val 1 n t
IsDecimal (negsuc n) t = (u : List ℕ) × (t ≡ b'-' ∷ u) × IsNumeral 10 dec_glyph dec_val 1 (n + 1) u

-- The numbers whose magnitude is an `int`, which are all but INT_MIN.
abbrev pub IsInt : ℤ → Type 0
IsInt (pos n) = n < 2 ^ 31
IsInt (negsuc n) = n < 2 ^ 31 - 1

abbrev pub IsHexadecimal : ℕ → List ℕ → Type 0
IsHexadecimal n t = (u : List ℕ) × (t ≡ b'0' ∷ b'x' ∷ u) × IsNumeral 16 ascii_number hex_val 2 n u

-- The bytes up to a NUL, as a text.
module _ (m : Memory) where
  text_at-nul : (left p : ℕ) → m p ≡ 0 → text_at (suc left) m p ≡ []
  unfolding text_at
  text_at-nul left p e = let is : m p == 0 ≡ true = ground arith in rw is refl

  text_at-char : (left p : ℕ) → m p ≢ 0 → text_at (suc left) m p ≡ m p ∷ text_at left m (p + 1)
  unfolding text_at
  text_at-char left p ne = let is : m p == 0 ≡ false = ground arith in rw is refl

  module _ (base : ℕ) (glyph val : ℕ → ℕ) where
    -- What `k` digits and a NUL are as a text.
    abbrev IsText : ℕ → ℕ → ℕ → List ℕ → Type 0
    IsText k p acc t =
        AreDigits base glyph t
        × (length t ≡ k)
        × (read_text base val t acc ≡ read_digits base val k m p acc)
        × (0 < k → first t ≡ m p)

    text_at-IsText :
        (k left p acc : ℕ)
        → k < left
        → ((q : ℕ) → q < k → m (p + q) ≢ 0)
        → ((q : ℕ) → q < k → IsDigit base glyph (m (p + q)))
        → m (p + k) ≡ 0
        → IsText k p acc (text_at left m p)
    text_at-IsText k zero p acc h shown digit ended = absurd (omega arith)
    text_at-IsText zero (suc left) p acc h shown digit ended =
        rw (text_at-nul left p (ap m (omega arith) ∙ ended))
          (tt, refl, refl, λ less. absurd (omega arith))
    text_at-IsText (suc k) (suc left) p acc h shown digit ended =
        let here : p + 0 ≡ p = omega arith in
        let (digits, len, value, top) =
          text_at-IsText k left (p + 1) (acc * base + val (m p)) (omega arith)
            (λ q less. rw (further q) (shown (suc q) (omega arith)))
            (λ q less. rw (further q) (digit (suc q) (omega arith))) (rw (further k) ended) in
        rw (text_at-char left p (subst (λ t. m t ≢ 0) here (shown 0 (omega arith)))) (
          (subst (λ t. IsDigit base glyph (m t)) here (digit 0 (omega arith)), digits),
          omega arith,
          value,
          λ less. refl,
        )
      where
        further : (q : ℕ) → p + 1 + q ≡ p + suc q
        further q = omega arith

    Shows-IsNumeral :
        (width p n left : ℕ)
        → 10 < left
        → Shows base glyph val width m p n
        → 0 < width
        → IsNumeral base glyph val width n (text_at left m p)
    Shows-IsNumeral width p n left room s some_digit =
        let narrow = s.narrow in
        let wide = s.wide in
        let (digits, len, value, top) =
          text_at-IsText s.len left p 0 (omega arith) s.shown s.digit s.ended in
        record {
          digits = digits;
          wide = omega arith;
          narrow = omega arith;
          value = value ∙ s.value;
          leading = λ more. rw (top (omega arith)) (s.leading (omega arith));
        }

-- dec2str and hex2str, with the text in the buffer that they return.
pub dec2str-IsDecimal :
    (z : ℤ) (buf : Memory)
    → IsBytes buf
    → IsInt z
    → (out : Memory) × (dec2str z buf ≡ some out) × IsBytes out × IsDecimal z (text_at 80 out 0)
dec2str-IsDecimal (pos n) buf bytes h =
    let (out, run, s) = dec2str-Shows buf bytes n h in
    (
      out,
      run,
      s.bytes,
      Shows-IsNumeral out 10 dec_glyph dec_val 1 0 n 80 (omega arith) s (omega arith),
    )
dec2str-IsDecimal (negsuc n) buf bytes h = elim (dec2str-neg buf bytes n (omega arith)) [
  | inl (least, fails) ↦ absurd (omega arith)
  | inr (out, fits, run, sign, s) ↦ (
    out,
    run,
    s.bytes,
    (
      text_at 79 out 1,
      text_at-char out 79 0 (rw sign (omega arith)) ∙ ap (λ c. c ∷ text_at 79 out 1) sign,
      Shows-IsNumeral out 10 dec_glyph dec_val 1 1 (n + 1) 79 (omega arith) s (omega arith),
    ),
  )
]

pub hex2str-IsHexadecimal :
    (n : ℕ) (buf : Memory)
    → IsBytes buf
    → n < 2 ^ 32
    → (out : Memory) × (hex2str n buf ≡ some out) × IsBytes out × IsHexadecimal n (text_at 80 out 0)
hex2str-IsHexadecimal n buf bytes h =
    let (out, run, (zero_first, ex, s)) = hex2str-Shows buf bytes n h in
    (
      out,
      run,
      s.bytes,
      (
        text_at 78 out 2,
        text_at-char out 79 0 (rw zero_first (omega arith))
            ∙ rw zero_first (
                ap (λ t. b'0' ∷ t)
                  (text_at-char out 78 1 (rw ex (omega arith))
                    ∙ ap (λ c. c ∷ text_at 78 out 2) ex)),
        Shows-IsNumeral out 16 ascii_number hex_val 2 2 n 78 (omega arith) s (omega arith),
      ),
    )
