-- ===== src/Base/Bits.antt =====
-- Laws of `&` and `|` at variables: low masks are remainders, shifted masks are fields, and the
-- `|` of disjoint fields is a sum.
use Prim.Native.Nat.{min, max, digits, bitwise, bit_and, bit_or, bit_and-bitwise, bit_or-bitwise}
use Prim.Native.Nat.{ℕ, zero, suc, ◌+◌, ◌-◌, ◌*◌, ◌/◌, ◌%◌, ◌^◌, ◌≤◌, ◌<◌}
use mathlib.Core.Path.{◌≡◌, refl, ap, ◌∙◌}
use native.Mathlib.Nat.{div-div-eq-div-mul, le_refl, pow-suc, one-le-pow}
use native.Mathlib.Omega.{arith}

-- The operations stand for a recursion on binary digits that is bounded by the first operand.
module _ (low : ℕ → ℕ) (op : ℕ → ℕ → ℕ) where
  -- Any bound that is large enough gives the same digits; `k` bounds the bounds.
  bound_settled : (k n x y : ℕ) → n ≤ k → x ≤ n → digits low op n x y ≡ bitwise low op x y
  bound_settled k zero zero y p q = refl
  bound_settled k zero (suc x) y p q = absurd (omega arith)
  bound_settled k (suc n) zero y p q = refl
  bound_settled zero (suc n) (suc x) y p q = absurd (omega arith)
  bound_settled (suc k) (suc n) (suc x) y p q = omega (
    arith,
    bound_settled k n (suc x / 2) (y / 2) (omega arith) (omega arith),
    bound_settled k x (suc x / 2) (y / 2) (omega arith) (omega arith),
  )

  lowest_digit :
      (x y : ℕ)
      → bitwise low op (suc x) y ≡ bitwise low op (suc x / 2) (y / 2) * 2 + op (suc x % 2) (y % 2)
  lowest_digit x y =
      ap (λ (t : ℕ). t * 2 + op (suc x % 2) (y % 2))
        (bound_settled x x (suc x / 2) (y / 2) (le_refl x) (omega arith))

pub bit_or_digit : (x y : ℕ) → bit_or x y ≡ bit_or (x / 2) (y / 2) * 2 + max (x % 2) (y % 2)
bit_or_digit zero y = omega (arith, bit_or-bitwise 0 y, bit_or-bitwise 0 (y / 2))
bit_or_digit (suc x) y =
    rw (bit_or-bitwise (suc x) y, bit_or-bitwise (suc x / 2) (y / 2))
      (lowest_digit (λ t. t) max x y)

pub bit_and_digit : (x y : ℕ) → bit_and x y ≡ bit_and (x / 2) (y / 2) * 2 + min (x % 2) (y % 2)
bit_and_digit zero y = omega (arith, bit_and-bitwise 0 y, bit_and-bitwise 0 (y / 2))
bit_and_digit (suc x) y =
    rw (bit_and-bitwise (suc x) y, bit_and-bitwise (suc x / 2) (y / 2))
      (lowest_digit (λ t. 0) min x y)

-- The remaining laws recur on a bound on the first operand, or on the width.
bit_or-zero_below : (n a : ℕ) → a ≤ n → bit_or a 0 ≡ a
bit_or-zero_below n zero h = refl
bit_or-zero_below zero (suc a) h = absurd (omega arith)
bit_or-zero_below (suc n) (suc a) h =
    omega (arith, bit_or_digit (suc a) 0, bit_or-zero_below n (suc a / 2) (omega arith))

pub bit_or-zero : (a : ℕ) → bit_or a 0 ≡ a
bit_or-zero a = bit_or-zero_below a a (le_refl _)

bit_and-zero_below : (n a : ℕ) → a ≤ n → bit_and a 0 ≡ 0
bit_and-zero_below n zero h = refl
bit_and-zero_below zero (suc a) h = absurd (omega arith)
bit_and-zero_below (suc n) (suc a) h =
    omega (arith, bit_and_digit (suc a) 0, bit_and-zero_below n (suc a / 2) (omega arith))

pub bit_and-zero : (a : ℕ) → bit_and a 0 ≡ 0
bit_and-zero a = bit_and-zero_below a a (le_refl _)

bit_and-le_below : (n a b : ℕ) → a ≤ n → bit_and a b ≤ b
bit_and-le_below n zero b h = omega (arith, bit_and_digit 0 b, bit_and-bitwise 0 b)
bit_and-le_below zero (suc a) b h = absurd (omega arith)
bit_and-le_below (suc n) (suc a) b h =
    omega (arith, bit_and_digit (suc a) b, bit_and-le_below n (suc a / 2) (b / 2) (omega arith))

pub bit_and-le : (a b : ℕ) → bit_and a b ≤ b
bit_and-le a b = bit_and-le_below a a b (le_refl _)

shifted : (q k : ℕ) → q * 2 ^ suc k ≡ 2 * (q * 2 ^ k)
shifted q k = omega (arith, ap (λ (t : ℕ). q * t) (pow-suc 2 k))

-- `(q << k) | r` is a sum when `r` has `k` bits.
pub bit_or_field : (k q r : ℕ) → r < 2 ^ k → bit_or (q * 2 ^ k) r ≡ q * 2 ^ k + r
bit_or_field zero q r h = ground (arith, bit_or-zero q)
bit_or_field (suc k) q r h =
    ground
      (arith, bit_or_digit (q * 2 ^ suc k) r, shifted q k, bit_or_field k q (r / 2) (omega arith))

bit_and_low : (k q r : ℕ) → r < 2 ^ k → bit_and (q * 2 ^ k + r) (2 ^ k - 1) ≡ r
bit_and_low zero q r h = rw bit_and-zero (omega arith)
bit_and_low (suc k) q r h = ground (
  arith,
  bit_and_digit (q * 2 ^ suc k + r) (2 ^ suc k - 1),
  shifted q k,
  pow-suc 2 k,
  bit_and_low k q (r / 2) (omega arith),
)

-- A mask of the `k` low bits is the remainder by `2 ^ k`.
pub bit_and_mask : (k a : ℕ) → bit_and a (2 ^ k - 1) ≡ a % 2 ^ k
bit_and_mask k a = ground (arith, one-le-pow k 2, bit_and_low k (a / 2 ^ k) (a % 2 ^ k))

-- A mask shifted up by `k` selects from `a / 2 ^ k`.
pub bit_and_shifted :
    (k q r m : ℕ) → r < 2 ^ k → bit_and (q * 2 ^ k + r) (m * 2 ^ k) ≡ bit_and q m * 2 ^ k
bit_and_shifted zero q r m h =
    let low : q * 2 ^ 0 + r ≡ q = omega arith in
    let mask : m * 2 ^ 0 ≡ m = omega arith in rw (low, mask) (omega arith)
bit_and_shifted (suc k) q r m h = ground (
  arith,
  bit_and_digit (q * 2 ^ suc k + r) (m * 2 ^ suc k),
  shifted q k,
  shifted m k,
  shifted (bit_and q m) k,
  pow-suc 2 k,
  bit_and_shifted k q (r / 2) m (omega arith),
)

-- The page-frame field: a mask of `n` ones above `k` zeros.
pub bit_and_frame : (k n a : ℕ) → bit_and a ((2 ^ n - 1) * 2 ^ k) ≡ a / 2 ^ k % 2 ^ n * 2 ^ k
bit_and_frame k n a =
    let fits : a % 2 ^ k < 2 ^ k = omega (arith, one-le-pow k 2) in
    let split : a ≡ a / 2 ^ k * 2 ^ k + a % 2 ^ k = omega (arith, one-le-pow k 2) in
    ap (λ (t : ℕ). bit_and t ((2 ^ n - 1) * 2 ^ k)) split
    ∙ bit_and_shifted k (a / 2 ^ k) (a % 2 ^ k) (2 ^ n - 1) fits
    ∙ ap (λ (t : ℕ). t * 2 ^ k) (bit_and_mask n (a / 2 ^ k))

-- The same with the operands exchanged.
pub bit_or_over : (k q r : ℕ) → r < 2 ^ k → bit_or r (q * 2 ^ k) ≡ q * 2 ^ k + r
bit_or_over zero q zero h = omega (arith, bit_or-bitwise 0 (q * 2 ^ 0))
bit_or_over zero q (suc r) h = absurd (omega arith)
bit_or_over (suc k) q r h =
    ground
      (arith, bit_or_digit r (q * 2 ^ suc k), shifted q k, bit_or_over k q (r / 2) (omega arith))

-- One bit of an `&` or of an `|`.
div_double : (k a : ℕ) → a / 2 ^ suc k ≡ a / 2 / 2 ^ k
div_double k a =
    let e : 2 ^ suc k ≡ 2 * 2 ^ k = omega (arith, pow-suc 2 k) in
    rw (e, div-div-eq-div-mul a 2 (2 ^ k)) refl

pub bit_and_at : (k a b : ℕ) → bit_and a b / 2 ^ k % 2 ≡ min (a / 2 ^ k % 2) (b / 2 ^ k % 2)
bit_and_at zero a b = omega (arith, bit_and_digit a b)
bit_and_at (suc k) a b =
    let half : bit_and a b / 2 ≡ bit_and (a / 2) (b / 2) = omega (arith, bit_and_digit a b) in
    rw (div_double k (bit_and a b), div_double k a, div_double k b, half)
      (bit_and_at k (a / 2) (b / 2))

pub bit_or_at : (k a b : ℕ) → bit_or a b / 2 ^ k % 2 ≡ max (a / 2 ^ k % 2) (b / 2 ^ k % 2)
bit_or_at zero a b = omega (arith, bit_or_digit a b)
bit_or_at (suc k) a b =
    let half : bit_or a b / 2 ≡ bit_or (a / 2) (b / 2) = omega (arith, bit_or_digit a b) in
    rw (div_double k (bit_or a b), div_double k a, div_double k b, half)
      (bit_or_at k (a / 2) (b / 2))
