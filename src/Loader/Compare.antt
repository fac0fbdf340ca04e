-- ===== src/Loader/Compare.antt =====
-- `memcmp` and `strlen` of gnu-efi/bootloader/main.c.
use kess_os_paranoid_edition.Base.{
  ℕ, zero, suc, ◌+◌, ◌<◌, ◌≡◌, ap, sym, ◌∙◌, arith, Bool-cases, inl, inr, ltb, false, ◌==◌, some,
}
use kess_os_paranoid_edition.Memory.{Memory}
use kess_os_paranoid_edition.Strings.{ℤ, pos, negsuc}
use kess_os_paranoid_edition.Strings.Compare.{IsText}
use kess_os_paranoid_edition.Loader.{memcmp_loop, memcmp, strlen_loop, strlen}

-- The result of a comparison from index `i` on: equal, or decided by the first byte that differs.
pub data Compared (m : Memory) (a b n i : ℕ) : ℤ → Type 0 where
  equal : ((q : ℕ) → q < n → m (a + (i + q)) ≡ m (b + (i + q))) → Compared m a b n i (pos 0)
  less :
      (k : ℕ)
      → k < n
      → ((q : ℕ) → q < k → m (a + (i + q)) ≡ m (b + (i + q)))
      → m (a + (i + k)) < m (b + (i + k))
      → Compared m a b n i (negsuc 0)
  greater :
      (k : ℕ)
      → k < n
      → ((q : ℕ) → q < k → m (a + (i + q)) ≡ m (b + (i + q)))
      → m (b + (i + k)) < m (a + (i + k))
      → Compared m a b n i (pos 1)

module _ (m : Memory) (a b : ℕ) where
  at : (p i q : ℕ) → m (p + (i + 1 + q)) ≡ m (p + (i + suc q))
  at p i q = ap m (omega arith)

  first : (p i : ℕ) → m (p + i) ≡ m (p + (i + 0))
  first p i = ap m (omega arith)

  same_more :
      (i k : ℕ)
      → m (a + i) ≡ m (b + i)
      → ((q : ℕ) → q < k → m (a + (i + 1 + q)) ≡ m (b + (i + 1 + q)))
      → (q : ℕ) → q < suc k
      → m (a + (i + q)) ≡ m (b + (i + q))
  same_more i k e rest zero h = sym (first a i) ∙ e ∙ first b i
  same_more i k e rest (suc q) h = sym (at a i q) ∙ rest q (omega arith) ∙ at b i q

  one_more :
      (n i : ℕ) (r : ℤ)
      → m (a + i) ≡ m (b + i)
      → Compared m a b n (i + 1) r
      → Compared m a b (suc n) i r
  one_more n i r e (equal same) = equal (same_more i n e same)
  one_more n i r e (less k h same lt) =
      less (suc k) (omega arith) (same_more i k e same) (omega (arith, lt, at a i k, at b i k))
  one_more n i r e (greater k h same lt) =
      greater (suc k) (omega arith) (same_more i k e same) (omega (arith, lt, at a i k, at b i k))

  memcmp_loop-Compared : (n i : ℕ) → Compared m a b n i (memcmp_loop n m a b i)
  unfolding memcmp_loop
  memcmp_loop-Compared zero i = equal (λ q h. absurd (omega arith))
  memcmp_loop-Compared (suc n) i = elim (Bool-cases (ltb (m (a + i)) (m (b + i)))) [
    | inl is_less ↦
        rw is_less (
          less 0 (omega arith) (λ q h. absurd (omega arith)) (ground (arith, first a i, first b i)))
    | inr not_less ↦ elim (Bool-cases (ltb (m (b + i)) (m (a + i)))) [
      | inl is_greater ↦
          rw (not_less, is_greater)
            (greater 0 (omega arith) (λ q h. absurd (omega arith))
              (ground (arith, first a i, first b i)))
      | inr not_greater ↦
          rw (not_less, not_greater)
            (one_more n i (memcmp_loop n m a b (i + 1)) (ground arith)
              (memcmp_loop-Compared n (i + 1)))
    ]
  ]

  -- memcmp is 0 if all bytes agree, and else -1 or 1 by the order of the first that differ.
  pub memcmp-Compared : (n : ℕ) → Compared m a b n 0 (memcmp m a b n)
  unfolding memcmp
  memcmp-Compared n = memcmp_loop-Compared n 0

strlen_loop_lem :
    (left fuel : ℕ) (m : Memory) (str len : ℕ)
    → left < fuel
    → IsText m str (len + left)
    → strlen_loop fuel m str len ≡ some (len + left + 1)
unfolding strlen_loop
strlen_loop_lem left zero m str len h t = absurd (omega arith)
strlen_loop_lem zero (suc fuel) m str len h t =
    let here : m (str + len) ≡ 0 = ap m (omega arith) ∙ t.ended in rw here (ap some (omega arith))
strlen_loop_lem (suc left) (suc fuel) m str len h t =
    let more : m (str + len) == 0 ≡ false = ground (arith, t.shown len (omega arith)) in
    let step : len + suc left + 1 ≡ len + 1 + left + 1 = omega arith in
    rw (more, step)
      (strlen_loop_lem left fuel m str (len + 1) (omega arith)
        record { shown = λ q less. t.shown q (omega arith); ended = ap m (omega arith) ∙ t.ended })

-- strlen of the boot loader returns one more than the number of bytes of a text.
pub strlen_lem :
    (fuel : ℕ) (m : Memory) (str n : ℕ)
    → n < fuel
    → IsText m str n
    → strlen fuel m str ≡ some (n + 1)
unfolding strlen
strlen_lem fuel m str n h t =
    strlen_loop_lem n fuel m str 0 h
      record { shown = λ q less. t.shown q (omega arith); ended = ap m (omega arith) ∙ t.ended }
    ∙ ap some (omega arith)
