-- ===== src/Strings/Compare.antt =====
-- `strlen`, `strncpy` and `strncmp` of kernel/src/util/impl/string.c.
use kess_os_paranoid_edition.Base.{
  ℕ, zero, suc, ◌+◌, ◌^◌, ◌<◌, ◌≡◌, ◌≢◌, ◌↔◌, refl, ap, sym, ◌∙◌, arith, true, false, ◌==◌, not,
  u32, if◌then◌else◌, Bool-cases, inl, inr, some,
}
use kess_os_paranoid_edition.Memory.{Memory}
use kess_os_paranoid_edition.Strings.{strlen_loop, strlen, strncmp_loop, strncmp}

-- At `str` stands a text of `n` bytes, and a NUL.
pub record IsText (m : Memory) (str n : ℕ) : Type 0 where
  pub shown : (q : ℕ) → q < n → m (str + q) ≢ 0
  pub ended : m (str + n) ≡ 0

strlen_loop_lem :
    (left fuel : ℕ) (m : Memory) (str size : ℕ)
    → left < fuel
    → IsText m str (size + left)
    → strlen_loop fuel m str size ≡ some (size + left)
unfolding strlen_loop
strlen_loop_lem left zero m str size h t = absurd (omega arith)
strlen_loop_lem zero (suc fuel) m str size h t =
    let here : m (str + size) ≡ 0 = ap m (omega arith) ∙ t.ended in rw here (ap some (omega arith))
strlen_loop_lem (suc left) (suc fuel) m str size h t =
    let more : m (str + size) == 0 ≡ false = ground (arith, t.shown size (omega arith)) in
    let step : size + suc left ≡ size + 1 + left = omega arith in
    rw (more, step)
      (strlen_loop_lem left fuel m str (size + 1) (omega arith)
        record { shown = λ q less. t.shown q (omega arith); ended = ap m (omega arith) ∙ t.ended })

-- strlen of a text of n bytes with a NUL behind returns n, in n + 1 rounds.
pub strlen-IsText :
    (fuel : ℕ) (m : Memory) (str n : ℕ) → n < fuel → IsText m str n → strlen fuel m str ≡ some n
unfolding strlen
strlen-IsText fuel m str n h t =
    strlen_loop_lem n fuel m str 0 h
      record { shown = λ q less. t.shown q (omega arith); ended = ap m (omega arith) ∙ t.ended }
    ∙ ap some (omega arith)

-- A round of `strncmp` at addresses that are not null.
strncmp_round :
    (left s1 s2 : ℕ) (m : Memory)
    → s1 ≢ 0
    → s2 ≢ 0
    → strncmp_loop (suc left) s1 s2 m
      ≡ (if not (m s1 == m s2) then false else strncmp_loop left (s1 + 1) (s2 + 1) m)
unfolding strncmp_loop
strncmp_round left s1 s2 m h1 h2 =
    let there1 : s1 == 0 ≡ false = ground arith in
    let there2 : s2 == 0 ≡ false = ground arith in rw (there1, there2) refl

-- The bytes of two stretches agree.
abbrev pub SameBytes : Memory → ℕ → ℕ → ℕ → Type 0
SameBytes m s1 s2 n = (q : ℕ) → q < n → m (s1 + q) ≡ m (s2 + q)

same_rest :
    (left s1 s2 : ℕ) (m : Memory)
    → SameBytes m s1 s2 (suc left)
    → SameBytes m (s1 + 1) (s2 + 1) left
same_rest left s1 s2 m same q h =
    ap m (omega arith) ∙ same (suc q) (omega arith) ∙ ap m (omega arith)

same_more :
    (left s1 s2 : ℕ) (m : Memory)
    → m s1 ≡ m s2
    → SameBytes m (s1 + 1) (s2 + 1) left
    → SameBytes m s1 s2 (suc left)
same_more left s1 s2 m first same zero h = ap m (omega arith) ∙ first ∙ ap m (omega arith)
same_more left s1 s2 m first same (suc q) h =
    ap m (omega arith) ∙ same q (omega arith) ∙ ap m (omega arith)

strncmp_loop-SameBytes :
    (left s1 s2 : ℕ) (m : Memory)
    → s1 ≢ 0
    → s2 ≢ 0
    → strncmp_loop left s1 s2 m ≡ true ↔ SameBytes m s1 s2 left
unfolding strncmp_loop
strncmp_loop-SameBytes zero s1 s2 m h1 h2 = (λ e q h. absurd (omega arith), λ same. refl)
strncmp_loop-SameBytes (suc left) s1 s2 m h1 h2 =
    let rest = strncmp_loop-SameBytes left (s1 + 1) (s2 + 1) m (omega arith) (omega arith) in
    elim (Bool-cases (m s1 == m s2)) [
      | inl first ↦ (
        λ e. same_more left s1 s2 m (ground arith) (rest.0 (sym (passes first) ∙ e)),
        λ same. passes first ∙ rest.1 (same_rest left s1 s2 m same),
      )
      | inr differ ↦ (
        λ e. absurd (false_true (sym (fails differ) ∙ e)),
        λ same.
            absurd
              (unequal differ (ap m (omega arith) ∙ same 0 (omega arith) ∙ ap m (omega arith))),
      )
    ]
  where
    passes :
        m s1 == m s2 ≡ true
        → strncmp_loop (suc left) s1 s2 m ≡ strncmp_loop left (s1 + 1) (s2 + 1) m
    passes e = strncmp_round left s1 s2 m h1 h2 ∙ rw e refl

    fails : m s1 == m s2 ≡ false → strncmp_loop (suc left) s1 s2 m ≡ false
    fails e = strncmp_round left s1 s2 m h1 h2 ∙ rw e refl

    false_true : false ≢ true
    false_true e = ground arith

    unequal : m s1 == m s2 ≡ false → m s1 ≢ m s2
    unequal e same = ground arith

-- strncmp of two addresses that are not null is true exactly if the first n bytes agree, also
-- those behind a NUL.
pub strncmp-SameBytes :
    (s1 s2 n : ℕ) (m : Memory)
    → s1 ≢ 0
    → s2 ≢ 0
    → n < 2 ^ 32
    → strncmp s1 s2 n m ≡ true ↔ SameBytes m s1 s2 n
unfolding strncmp
strncmp-SameBytes s1 s2 n m h1 h2 h =
    let whole : u32 n ≡ n = omega arith in rw whole (strncmp_loop-SameBytes n s1 s2 m h1 h2)
