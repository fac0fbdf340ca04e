-- ===== src/Strings/Decimal.antt =====
-- `dec2str` of kernel/src/util/impl/string.c, read back.
use kess_os_paranoid_edition.Base.{
  ℕ, zero, suc, ◌+◌, ◌-◌, ◌^◌, ◌≤◌, ◌<◌, ◌≡◌, ◌≢◌, refl, ap, ◌∙◌, arith, ltb, Bool-cases, inl, inr,
  ◌⊎◌, none, some,
}
use mathlib.Core.Path.{subst}
use kess_os_paranoid_edition.Memory.{Memory, store8}
use kess_os_paranoid_edition.Strings.{pos, negsuc, finish, dec_loop, dec2str, dec_fuel}
use kess_os_paranoid_edition.Strings.Swap.{IsBytes, store8-IsBytes}
use kess_os_paranoid_edition.Strings.Digits.{
  IsWritten, digit_loop-IsWritten, dec_glyph, dec_loop-digit_loop,
}
use kess_os_paranoid_edition.Strings.Number.{Shows, finish-text, finish-Shows, some_digit, not_zero}

abbrev pub dec_val : ℕ → ℕ
dec_val c = c - b'0'

-- What the decimal loop leaves for a positive number.
dec-IsWritten :
    (n : ℕ) (buf : Memory)
    → IsBytes buf
    → n < 2 ^ 31
    → (k : ℕ) × (out : Memory) × (k ≤ 10)
      × (dec_loop dec_fuel n 0 buf ≡ some (k, out))
      × IsWritten 10 dec_glyph n 0 k buf out
dec-IsWritten n buf bytes h =
    let (k, out, bound, run, written) =
      digit_loop-IsWritten 10 dec_glyph (omega arith) (λ d k. omega arith) 10 n 0 buf bytes
        (omega arith) (omega arith) in
    (
      k,
      out,
      bound,
      dec_loop-digit_loop dec_fuel n 0 buf ∙ run ∙ ap (λ (t : ℕ). some (t, out)) (omega arith),
      written,
    )

dec_inverse : (d : ℕ) → d < 10 → dec_val (dec_glyph d) ≡ d
dec_inverse d h = omega arith

dec_plain : (d : ℕ) → d < 10 → d ≢ 0 → dec_glyph d ≢ b'0'
dec_plain d h ne = omega arith

dec_nonzero : (d : ℕ) → d < 10 → dec_glyph d ≢ 0
dec_nonzero d h = omega arith

-- A digit loop's result, finished with `extra` more bytes above the digits.
dec_finished :
    (n k extra : ℕ) (buf out m : Memory)
    → n ≢ 0
    → k ≤ 10
    → IsWritten 10 dec_glyph n 0 k buf out
    → IsBytes m
    → ((q : ℕ) → q < k → m q ≡ out q)
    → Shows 10 dec_glyph dec_val 1 (finish (k + extra) m) extra n
dec_finished n k extra buf out m more narrow w bytes same =
    let pos = some_digit 10 dec_glyph (omega arith) dec_plain n k buf out more w in
    finish-Shows 10 n dec_glyph dec_val (omega arith) dec_inverse dec_nonzero m 1 extra k
      (k + extra) bytes (omega arith) pos narrow pos
      (λ j h. same j h ∙ ap out (omega arith) ∙ w.digit j h) w.over
      (λ h.
        rw (same (k - 1) (omega arith))
          (not_zero 10 dec_glyph (omega arith) dec_plain n k buf out more w))

sign_above : (k : ℕ) (out : Memory) → store8 out k b'-' (k + 1 - 1 - 0) ≡ b'-'
unfolding store8
sign_above k out = let e : k + 1 - 1 - 0 ≡ k = omega arith in rw e (ground arith)

module _ (buf : Memory) (bytes : IsBytes buf) where
  -- dec2str of a number from 0 to INT_MAX returns its decimal digits, the highest first and with
  -- no leading zero, and a NUL: reading them back gives the number.
  pub dec2str-Shows :
      (n : ℕ)
      → n < 2 ^ 31
      → (out : Memory) × (dec2str (pos n) buf ≡ some out) × Shows 10 dec_glyph dec_val 1 out 0 n
  unfolding dec2str
  dec2str-Shows zero h = (
    finish 1 (store8 buf 0 b'0'),
    refl,
    finish-Shows 10 0 dec_glyph dec_val (omega arith) dec_inverse dec_nonzero (store8 buf 0 b'0') 1
        0 1 1 (store8-IsBytes buf 0 b'0' bytes) (omega arith) (omega arith) (omega arith)
        (omega arith) (λ j k. unfold store8 in ground arith) refl (λ k. absurd (omega arith)),
  )
  dec2str-Shows (suc n) h =
      let (k, out, bound, run, w) = dec-IsWritten (suc n) buf bytes h in
      let whole : k + 0 ≡ k = omega arith in
      (
        finish k out,
        rw (run, dec2str) refl,
        subst (λ t. Shows 10 dec_glyph dec_val 1 (finish t out) 0 (suc n)) whole
            (dec_finished (suc n) k 0 buf out out (omega arith) bound w w.bytes (λ q h. refl)),
      )

  -- Either the number is INT_MIN and the negation of dec2str is a signed overflow, or it is from
  -- -1 down to INT_MIN + 1 and dec2str returns a minus sign and the decimal digits of its
  -- magnitude.
  pub dec2str-neg :
      (n : ℕ)
      → n < 2 ^ 31
      → ((n ≡ 2 ^ 31 - 1) × (dec2str (negsuc n) buf ≡ none))
        ⊎ ((out : Memory) × (n < 2 ^ 31 - 1)
            × (dec2str (negsuc n) buf ≡ some out)
            × (out 0 ≡ b'-')
            × Shows 10 dec_glyph dec_val 1 out 1 (n + 1))
  unfolding dec2str
  dec2str-neg n h = elim (Bool-cases (ltb n (2 ^ 31 - 1))) [
    | inr least ↦ inl (ground arith, rw least refl)
    | inl fits ↦
        let (k, out, bound, run, w) = dec-IsWritten (n + 1) buf bytes (ground arith) in
        let signed = store8 out k b'-' in
        inr (
          finish (k + 1) signed,
          ground arith,
          rw (fits, run, dec2str) refl,
          finish-text (k + 1) signed 0 (store8-IsBytes out k b'-' w.bytes) (omega arith)
              ∙ sign_above k out,
          dec_finished (n + 1) k 1 buf out signed (omega arith) bound w
              (store8-IsBytes out k b'-' w.bytes) (λ q less. unfold store8 in ground arith),
        )
  ]
