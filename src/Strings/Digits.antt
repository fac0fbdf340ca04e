-- ===== src/Strings/Digits.antt =====
-- The digit loops of `dec2str` and `hex2str` are one loop, at two bases.
use kess_os_paranoid_edition.Base.{
  ℕ, zero, suc, ◌+◌, ◌/◌, ◌%◌, ◌≤◌, ◌<◌, ◌≡◌, ◌≢◌, refl, ap, ◌∙◌, arith, true, false, ltb,
  if◌then◌else◌, Bool-cases, inl, inr, Option, none, some, u8, bit_and, bit_and_mask,
}
use kess_os_paranoid_edition.Memory.{Memory, store8}
use kess_os_paranoid_edition.Strings.{dec_loop, hex_loop, ascii_number}
use kess_os_paranoid_edition.Strings.Swap.{IsBytes, store8-IsBytes}

-- `n` divided by the base `j` times.
abbrev pub quot : ℕ → ℕ → ℕ → ℕ
quot base zero n = n
quot base (suc j) n = quot base j (n / base)

pub quot-suc : (base j n : ℕ) → quot base (suc j) n ≡ quot base j n / base
quot-suc base zero n = refl
quot-suc base (suc j) n = quot-suc base j (n / base)

module _ (base : ℕ) (glyph : ℕ → ℕ) where
  pub digit_loop : ℕ → ℕ → ℕ → Memory → Option (ℕ × Memory)
  digit_loop zero n i buf = none
  digit_loop (suc fuel) n i buf =
      let rest = digit_loop fuel (n / base) (u8 (i + 1)) (store8 buf i (glyph (n % base))) in
      if ltb 0 n then rest else some (i, buf)

  -- The digits of `n`, the lowest at `i`, up to the highest that is not 0, before `i + k`.
  pub record IsWritten (n i k : ℕ) (buf out : Memory) : Type 0 where
    pub over : quot base k n ≡ 0
    pub least : (j : ℕ) → j < k → quot base j n ≢ 0
    pub below : (q : ℕ) → q < i → out q ≡ buf q
    pub digit : (j : ℕ) → j < k → out (i + j) ≡ glyph (quot base j n % base)
    pub bytes : IsBytes out

  -- No digit is left.
  IsWritten-zero : (n i : ℕ) (buf : Memory) → n ≡ 0 → IsBytes buf → IsWritten n i 0 buf buf
  IsWritten-zero n i buf e bytes = record {
    over = e;
    least = λ j h. absurd (omega arith);
    below = λ q h. refl;
    digit = λ j h. absurd (omega arith);
    bytes = bytes;
  }

  module _ (positive : 0 < base) (fits : (d : ℕ) → d < base → glyph d < 256) where
    -- One digit more in front of those of `n / base`.
    module _ (n i k : ℕ) (buf out : Memory) (more : n ≢ 0)
        (rest : IsWritten (n / base) (i + 1) k (store8 buf i (glyph (n % base))) out) where
      least_at : (j : ℕ) → j < suc k → quot base j n ≢ 0
      least_at zero h = more
      least_at (suc j) h = rest.least j (omega arith)

      digit_at : (j : ℕ) → j < suc k → out (i + j) ≡ glyph (quot base j n % base)
      unfolding store8
      digit_at zero h =
          let lowest : n % base < base = grind arith in
          let here : i + 0 ≡ i = omega arith in
          rw here (ground (arith, rest.below i, fits (n % base) lowest))
      digit_at (suc j) h =
          let there : i + suc j ≡ i + 1 + j = omega arith in rw there (rest.digit j (omega arith))

      IsWritten-suc : IsWritten n i (suc k) buf out
      unfolding store8
      IsWritten-suc = record {
        over = rest.over;
        least = least_at;
        below = λ q h. ground (arith, rest.below q);
        digit = digit_at;
        bytes = rest.bytes;
      }

    step :
        (fuel n i : ℕ) (buf : Memory)
        → ltb 0 n ≡ true
        → i + 1 < 256
        → digit_loop (suc fuel) n i buf
          ≡ digit_loop fuel (n / base) (i + 1) (store8 buf i (glyph (n % base)))
    unfolding digit_loop
    step fuel n i buf more room =
        let next : u8 (i + 1) ≡ i + 1 = omega arith in rw (more, next) refl

    pub digit_loop-IsWritten :
        (fuel n i : ℕ) (buf : Memory)
        → IsBytes buf
        → i + fuel < 255
        → quot base fuel n ≡ 0
        → (k : ℕ) × (out : Memory) × (k ≤ fuel)
          × (digit_loop (suc fuel) n i buf ≡ some (i + k, out))
          × IsWritten n i k buf out
    unfolding digit_loop
    digit_loop-IsWritten zero n i buf bytes room enough =
        let stop : ltb 0 n ≡ false = ground arith in
        (
          0,
          buf,
          omega arith,
          rw stop (ap (λ (t : ℕ). some (t, buf)) (omega arith)),
          IsWritten-zero n i buf enough bytes,
        )
    digit_loop-IsWritten (suc fuel) n i buf bytes room enough = elim (Bool-cases (ltb 0 n)) [
      | inl more ↦
          let (k, out, bound, run, written) =
            digit_loop-IsWritten fuel (n / base) (i + 1) (store8 buf i (glyph (n % base)))
              (store8-IsBytes buf i (glyph (n % base)) bytes) (omega arith) enough in
          (
            suc k,
            out,
            omega arith,
            step (suc fuel) n i buf more (omega arith)
                ∙ run
                ∙ ap (λ (t : ℕ). some (t, out)) (omega arith),
            IsWritten-suc n i k buf out (ground arith) written,
          )
      | inr stop ↦ (
        0,
        buf,
        omega arith,
        rw stop (ap (λ (t : ℕ). some (t, buf)) (omega arith)),
        IsWritten-zero n i buf (ground arith) bytes,
      )
    ]

abbrev pub dec_glyph : ℕ → ℕ
dec_glyph d = d + b'0'

pub dec_loop-digit_loop :
    (fuel n i : ℕ) (buf : Memory) → dec_loop fuel n i buf ≡ digit_loop 10 dec_glyph fuel n i buf
unfolding dec_loop digit_loop
dec_loop-digit_loop zero n i buf = refl
dec_loop-digit_loop (suc fuel) n i buf =
    rw (dec_loop-digit_loop fuel (n / 10) (u8 (i + 1)) (store8 buf i (n % 10 + b'0')))

pub hex_loop-digit_loop :
    (fuel n i : ℕ) (buf : Memory) → hex_loop fuel n i buf ≡ digit_loop 16 ascii_number fuel n i buf
unfolding hex_loop digit_loop
hex_loop-digit_loop zero n i buf = refl
hex_loop-digit_loop (suc fuel) n i buf =
    let low : bit_and (u8 n) 0x0f ≡ n % 16 = bit_and_mask 4 (u8 n) ∙ omega arith in
    rw (low, hex_loop-digit_loop fuel (n / 16) (u8 (i + 1)) (store8 buf i (ascii_number (n % 16))))
