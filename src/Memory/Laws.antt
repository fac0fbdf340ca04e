-- ===== src/Memory/Laws.antt =====
-- Laws of loads, stores and `memzero`.
use kess_os_paranoid_edition.Base.{
  ℕ, zero, suc, ◌+◌, ◌-◌, ◌*◌, ◌/◌, ◌%◌, ◌^◌, ◌≤◌, ◌<◌, ◌≡◌, refl, ◌∙◌, ◌⊎◌, arith, leb, ltb,
  if◌then◌else◌, ◌&&◌,
}
use kess_os_paranoid_edition.Memory.{
  Memory, store8, load16, load32, load64, byte, store64, memzero_loop, memzero,
}

-- Two accesses of `n` and `k` bytes that share no byte.
abbrev pub Apart : ℕ → ℕ → ℕ → ℕ → Type 0
Apart p n q k = (p + n ≤ q) ⊎ (q + k ≤ p)

-- The bytes of a word, put together again.
bytes_of_16 : (v : ℕ) → byte v 0 + byte v 1 * 2 ^ 8 ≡ v % 2 ^ 16
unfolding byte
bytes_of_16 v = omega arith

bytes_of_32 :
    (v : ℕ) → byte v 0 + byte v 1 * 2 ^ 8 + (byte v 2 + byte v 3 * 2 ^ 8) * 2 ^ 16 ≡ v % 2 ^ 32
unfolding byte
bytes_of_32 v = omega arith

byte_above :
    (v : ℕ)
    → (byte v 4 ≡ byte (v / 2 ^ 32) 0)
      × (byte v 5 ≡ byte (v / 2 ^ 32) 1)
      × (byte v 6 ≡ byte (v / 2 ^ 32) 2)
      × (byte v 7 ≡ byte (v / 2 ^ 32) 3)
unfolding byte
byte_above v = omega arith

module _ (m : Memory) (p v : ℕ) where
  store64-at : (q k : ℕ) → q ≡ p + k → k < 8 → store64 m p v q ≡ byte v k
  unfolding store64
  store64-at q k e h = let within : q - p ≡ k = omega arith in ground arith

  pub store64-outside : (q : ℕ) → Apart p 8 q 1 → store64 m p v q ≡ m q
  unfolding store64
  store64-outside q h = ground arith

  pub load64-store64 : v < 2 ^ 64 → load64 (store64 m p v) p ≡ v
  unfolding load64 load32 load16
  load64-store64 h = omega (
    arith,
    store64-at p 0 (omega arith) (omega arith),
    store64-at (p + 1) 1 refl (omega arith),
    store64-at (p + 2) 2 refl (omega arith),
    store64-at (p + 2 + 1) 3 (omega arith) (omega arith),
    store64-at (p + 4) 4 refl (omega arith),
    store64-at (p + 4 + 1) 5 (omega arith) (omega arith),
    store64-at (p + 4 + 2) 6 (omega arith) (omega arith),
    store64-at (p + 4 + 2 + 1) 7 (omega arith) (omega arith),
    byte_above v,
    bytes_of_32 v,
    bytes_of_32 (v / 2 ^ 32),
  )

  pub load64-store64_ne : (q : ℕ) → Apart p 8 q 8 → load64 (store64 m p v) q ≡ load64 m q
  unfolding load64
  load64-store64_ne q h = ground (
    arith,
    store64-outside q,
    store64-outside (q + 1),
    store64-outside (q + 2),
    store64-outside (q + 2 + 1),
    store64-outside (q + 4),
    store64-outside (q + 4 + 1),
    store64-outside (q + 4 + 2),
    store64-outside (q + 4 + 2 + 1),
  )

memzero_loop_lem :
    (left addr i : ℕ) (m : Memory) (q : ℕ)
    → memzero_loop left addr i m q
      ≡ (if leb (addr + i) q && ltb q (addr + i + left) then 0 else m q)
unfolding memzero_loop
memzero_loop_lem zero addr i m q = ground arith
memzero_loop_lem (suc left) addr i m q =
    memzero_loop_lem left addr (i + 1) (store8 m (addr + i) 0) q ∙ (unfold store8 in ground arith)

module _ (addr n : ℕ) (m : Memory) where
  pub memzero-inside : (q : ℕ) → addr ≤ q → q < addr + n → memzero addr n m q ≡ 0
  unfolding memzero
  memzero-inside q h k = ground (arith, memzero_loop_lem n addr 0 m q)

  pub memzero-outside : (q : ℕ) → Apart addr n q 1 → memzero addr n m q ≡ m q
  unfolding memzero
  memzero-outside q h = ground (arith, memzero_loop_lem n addr 0 m q)

  pub load64-memzero : (q : ℕ) → addr ≤ q → q + 8 ≤ addr + n → load64 (memzero addr n m) q ≡ 0
  unfolding load64
  load64-memzero q h k = omega (
    arith,
    memzero-inside q,
    memzero-inside (q + 1),
    memzero-inside (q + 2),
    memzero-inside (q + 2 + 1),
    memzero-inside (q + 4),
    memzero-inside (q + 4 + 1),
    memzero-inside (q + 4 + 2),
    memzero-inside (q + 4 + 2 + 1),
  )

  pub load64-memzero_ne : (q : ℕ) → Apart addr n q 8 → load64 (memzero addr n m) q ≡ load64 m q
  unfolding load64
  load64-memzero_ne q h = ground (
    arith,
    memzero-outside q,
    memzero-outside (q + 1),
    memzero-outside (q + 2),
    memzero-outside (q + 2 + 1),
    memzero-outside (q + 4),
    memzero-outside (q + 4 + 1),
    memzero-outside (q + 4 + 2),
    memzero-outside (q + 4 + 2 + 1),
  )
