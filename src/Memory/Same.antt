-- ===== src/Memory/Same.antt =====
-- Loads see only the bytes of their access.
use kess_os_paranoid_edition.Base.{ℕ, suc, ◌+◌, ◌<◌, ◌≡◌, ap, sym, ◌∙◌, arith}
use kess_os_paranoid_edition.Memory.{Memory, load16, load32, load64}

-- Two memories have the same `n` bytes from `p` on.
abbrev pub Same : Memory → Memory → ℕ → ℕ → Type 0
Same m m' p n = (k : ℕ) → k < n → m' (p + k) ≡ m (p + k)

module _ (m m' : Memory) where
  pub Same-part :
      (p n q k : ℕ) → Same m m' p n → (d : ℕ) → q ≡ p + d → d + k < suc n → Same m m' q k
  Same-part p n q k h d e inside j less =
      let at : q + j ≡ p + (d + j) = omega arith in
      ap m' at ∙ h (d + j) (omega arith) ∙ ap m (sym at)

  pub at-Same : (p n q : ℕ) → Same m m' p n → (d : ℕ) → q ≡ p + d → d < n → m' q ≡ m q
  at-Same p n q h d e inside = ap m' e ∙ h d inside ∙ ap m (sym e)

  load16-Same : (p : ℕ) → Same m m' p 2 → load16 m' p ≡ load16 m p
  unfolding load16
  load16-Same p h =
      let low = at-Same p 2 p h 0 (omega arith) (omega arith) in
      let high = h 1 (omega arith) in omega arith

  pub load32-Same : (p : ℕ) → Same m m' p 4 → load32 m' p ≡ load32 m p
  unfolding load32
  load32-Same p h =
      let low = load16-Same p (Same-part p 4 p 2 h 0 (omega arith) (omega arith)) in
      let high = load16-Same (p + 2) (Same-part p 4 (p + 2) 2 h 2 (omega arith) (omega arith)) in
      omega arith

  pub load64-Same : (p : ℕ) → Same m m' p 8 → load64 m' p ≡ load64 m p
  unfolding load64
  load64-Same p h =
      let low = load32-Same p (Same-part p 8 p 4 h 0 (omega arith) (omega arith)) in
      let high = load32-Same (p + 4) (Same-part p 8 (p + 4) 4 h 4 (omega arith) (omega arith)) in
      omega arith
