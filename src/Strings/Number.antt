-- ===== src/Strings/Number.antt =====
-- Digits that `finish` of kernel/src/util/impl/string.c turned round, read back as a number.
use kess_os_paranoid_edition.Base.{
  ℕ, zero, suc, ◌+◌, ◌-◌, ◌*◌, ◌/◌, ◌%◌, ◌≤◌, ◌<◌, ◌≡◌, ◌≢◌, ap, sym, ◌∙◌, arith,
}
use native.Mathlib.Nat.{div-add-mod'}
use kess_os_paranoid_edition.Memory.{Memory, store8}
use kess_os_paranoid_edition.Strings.{finish}
use kess_os_paranoid_edition.Strings.Swap.{
  IsBytes, store8-IsBytes, swap_loop-IsBytes, swap_loop_lem,
}
use kess_os_paranoid_edition.Strings.Digits.{quot, quot-suc, IsWritten}

-- The number that `k` digits from `p` on stand for, behind those that gave `acc`.
abbrev pub read_digits : ℕ → (ℕ → ℕ) → ℕ → Memory → ℕ → ℕ → ℕ
read_digits base val zero m p acc = acc
read_digits base val (suc k) m p acc = read_digits base val k m (p + 1) (acc * base + val (m p))

-- `glyph` writes a digit, and `val` reads one.
abbrev pub IsDigit : ℕ → (ℕ → ℕ) → ℕ → Type 0
IsDigit base glyph c = (d : ℕ) × (d < base) × (c ≡ glyph d)

-- From `start` on stands `n`, in at least `width` digits, at most ten and with no other leading
-- zero, and then a NUL.
pub record Shows (base : ℕ) (glyph val : ℕ → ℕ) (width : ℕ) (m : Memory) (start n : ℕ)
    : Type 0 where
  pub len : ℕ
  pub wide : width ≤ len
  pub narrow : len ≤ 10
  pub bytes : IsBytes m
  pub digit : (q : ℕ) → q < len → IsDigit base glyph (m (start + q))
  pub value : read_digits base val len m start 0 ≡ n
  pub leading : width < len → m start ≢ b'0'
  pub shown : (q : ℕ) → q < len → m (start + q) ≢ 0
  pub ended : m (start + len) ≡ 0

pub finish-text :
    (i : ℕ) (buf : Memory) (q : ℕ) → IsBytes buf → q < i → finish i buf q ≡ buf (i - 1 - q)
unfolding finish store8
finish-text i buf q h lt =
    swap_loop_lem i 0 (i - 1) (store8 buf i 0) q (store8-IsBytes buf i 0 h) (omega arith)
    ∙ ground (arith)

pub finish-IsBytes : (i : ℕ) (buf : Memory) → IsBytes buf → IsBytes (finish i buf)
unfolding finish
finish-IsBytes i buf h = swap_loop-IsBytes i 0 (i - 1) (store8 buf i 0) (store8-IsBytes buf i 0 h)

pub finish-end : (i : ℕ) (buf : Memory) → IsBytes buf → 0 < i → finish i buf i ≡ 0
unfolding finish store8
finish-end i buf h pos =
    swap_loop_lem i 0 (i - 1) (store8 buf i 0) i (store8-IsBytes buf i 0 h) (omega arith)
    ∙ ground (arith)

module _ (base n : ℕ) (glyph val : ℕ → ℕ) (positive : 0 < base)
    (inverse : (d : ℕ) → d < base → val (glyph d) ≡ d) where
  -- Digits that stand with the highest first read back.
  read_back :
      (m : Memory) (k p acc : ℕ)
      → ((j : ℕ) → j < k → m (p + (k - 1 - j)) ≡ glyph (quot base j n % base))
      → acc ≡ quot base k n
      → read_digits base val k m p acc ≡ n
  read_back m zero p acc digit e = e
  read_back m (suc k) p acc digit e =
      read_back m k (p + 1) (acc * base + val (m p))
        (λ j h. ap m (omega arith) ∙ digit j (omega arith))
        (rw (first, inverse (quot base k n % base) small) (rw (e, quot-suc) split))
    where
      small : quot base k n % base < base
      small = grind arith

      split : quot base k n / base * base + quot base k n % base ≡ quot base k n
      split = div-add-mod' (quot base k n) base

      first : m p ≡ glyph (quot base k n % base)
      first = ap m (omega arith) ∙ digit k (omega arith)

  -- What `finish` makes of the digits below `k` and of `start` other bytes above them.
  module _ (nonzero : (d : ℕ) → d < base → glyph d ≢ 0) where
    pub finish-Shows :
        (m : Memory) (width start k total : ℕ)
        → IsBytes m
        → total ≡ start + k
        → 0 < k
        → k ≤ 10
        → width ≤ k
        → ((j : ℕ) → j < k → m j ≡ glyph (quot base j n % base))
        → quot base k n ≡ 0
        → (width < k → m (k - 1) ≢ b'0')
        → Shows base glyph val width (finish total m) start n
    finish-Shows m width start k total bytes e pos narrow wide digit over leading = record {
      len = k;
      wide = wide;
      narrow = narrow;
      bytes = finish-IsBytes total m bytes;
      digit = λ q h.
          (quot base (k - 1 - q) n % base, small _, at_end q h ∙ digit (k - 1 - q) (omega arith));
      value = read_back (finish total m) k start 0 placed (sym over);
      leading = λ h. rw top (leading h);
      shown = λ q h. rw (at_end q h) (
          rw (digit (k - 1 - q) (omega arith))
            (nonzero (quot base (k - 1 - q) n % base) (small _)));
      ended = ap (finish total m) (sym e) ∙ finish-end total m bytes (omega arith);
    }
      where
        small : (x : ℕ) → x % base < base
        small x = grind arith

        at_end : (q : ℕ) → q < k → finish total m (start + q) ≡ m (k - 1 - q)
        at_end q h = finish-text total m (start + q) bytes (omega arith) ∙ ap m (omega arith)

        top : finish total m start ≡ m (k - 1)
        top = ap (finish total m) (omega arith) ∙ at_end 0 pos ∙ ap m (omega arith)

        placed :
            (j : ℕ) → j < k → finish total m (start + (k - 1 - j)) ≡ glyph (quot base j n % base)
        placed j h = at_end (k - 1 - j) (omega arith) ∙ ap m (omega arith) ∙ digit j h

-- The highest digit that is written is not 0.
pub top_digit :
    (base n k : ℕ)
    → 0 < base
    → quot base (suc k) n ≡ 0
    → quot base k n ≢ 0
    → quot base k n % base ≢ 0
top_digit base n k pos over least =
    grind (arith, quot-suc base k n, div-add-mod' (quot base k n) base)

-- A positive number has a digit, and its highest is not written as 0.
module _ (base : ℕ) (glyph : ℕ → ℕ) (positive : 0 < base)
    (plain : (d : ℕ) → d < base → d ≢ 0 → glyph d ≢ b'0') where
  pub some_digit : (n k : ℕ) (buf out : Memory) → n ≢ 0 → IsWritten base glyph n 0 k buf out → 0 < k
  some_digit n zero buf out more w = absurd (more w.over)
  some_digit n (suc k) buf out more w = omega arith

  pub not_zero :
      (n k : ℕ) (buf out : Memory) → n ≢ 0 → IsWritten base glyph n 0 k buf out → out (k - 1) ≢ b'0'
  not_zero n zero buf out more w = absurd (more w.over)
  not_zero n (suc k) buf out more w =
      let top : out (suc k - 1) ≡ glyph (quot base k n % base) =
        ap out (omega arith) ∙ w.digit k (omega arith) in
      rw top (
        plain (quot base k n % base) (grind arith)
          (top_digit base n k positive w.over (w.least k (omega arith))))
