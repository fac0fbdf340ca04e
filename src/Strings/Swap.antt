-- ===== src/Strings/Swap.antt =====
-- The exchange loop of `dec2str` and `hex2str` turns a stretch of the buffer round.
use kess_os_paranoid_edition.Base.{
  ℕ, zero, suc, ◌+◌, ◌-◌, ◌<◌, ◌≡◌, refl, ap, true, ◌∙◌, arith, ltb, leb, ◌==◌, ◌&&◌, if◌then◌else◌,
  Bool-cases, inl, inr,
}
use kess_os_paranoid_edition.Memory.{Memory, store8}
use kess_os_paranoid_edition.Strings.{swap_loop}

abbrev pub IsBytes : Memory → Type 0
IsBytes m = (q : ℕ) → m q < 256

pub store8-IsBytes : (m : Memory) (p v : ℕ) → IsBytes m → IsBytes (store8 m p v)
unfolding store8
store8-IsBytes m p v h q = ground (arith, h q)

abbrev swapped : Memory → ℕ → ℕ → Memory
swapped m j i = store8 (store8 m j (m i)) i (m j)

swapped_lem :
    (m : Memory) (j i q : ℕ)
    → IsBytes m
    → swapped m j i q ≡ (if q == i then m j else if q == j then m i else m q)
unfolding store8
swapped_lem m j i q h = ground (arith, h j, h i)

swapped-IsBytes : (m : Memory) (j i : ℕ) → IsBytes m → IsBytes (swapped m j i)
swapped-IsBytes m j i h = store8-IsBytes _ i (m j) (store8-IsBytes m j (m i) h)

pub swap_loop-IsBytes : (fuel j i : ℕ) (m : Memory) → IsBytes m → IsBytes (swap_loop fuel j i m)
unfolding swap_loop
swap_loop-IsBytes zero j i m h = h
swap_loop-IsBytes (suc fuel) j i m h = elim (Bool-cases (ltb j i)) [
  | inl more ↦
      rw more (swap_loop-IsBytes fuel (j + 1) (i - 1) (swapped m j i) (swapped-IsBytes m j i h))
  | inr done ↦ rw done h
]

pub swap_loop_lem :
    (fuel j i : ℕ) (m : Memory) (q : ℕ)
    → IsBytes m
    → i < j + fuel + fuel
    → swap_loop fuel j i m q ≡ (if leb j q && leb q i then m (j + i - q) else m q)
unfolding swap_loop
swap_loop_lem zero j i m q h f = ground arith
swap_loop_lem (suc fuel) j i m q h f = elim (Bool-cases (ltb j i)) [
  | inl more ↦ rw more (
      swap_loop_lem fuel (j + 1) (i - 1) (swapped m j i) q (swapped-IsBytes m j i h) (ground arith)
      ∙ outer more)
  | inr done ↦ rw done (elim (Bool-cases (leb j q && leb q i)) [
    | inl inside ↦ rw inside (ap m (ground arith))
    | inr outside ↦ rw outside refl
  ])
]
  where
    at_ends : ltb j i ≡ true → (q ≡ j → m (j + i - q) ≡ m i) × (q ≡ i → m (j + i - q) ≡ m j)
    at_ends more = (λ e. ap m (omega arith), λ e. ap m (omega arith))

    -- One exchange, seen from the whole stretch.
    outer :
        ltb j i ≡ true
        → (if leb (j + 1) q && leb q (i - 1)
            then swapped m j i (j + 1 + (i - 1) - q)
            else swapped m j i q)
          ≡ (if leb j q && leb q i then m (j + i - q) else m q)
    outer more =
        let middle : j + 1 + (i - 1) - q ≡ j + i - q = ground arith in
        rw middle
          (ground (arith, swapped_lem m j i (j + i - q) h, swapped_lem m j i q h, at_ends more))
