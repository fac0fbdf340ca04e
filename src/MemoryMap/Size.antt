-- ===== src/MemoryMap/Size.antt =====
-- `getMemSize` of kernel/src/arch/memory/impl/memory.c.
use kess_os_paranoid_edition.Base.{
  ℕ, zero, suc, ◌+◌, ◌*◌, ◌-◌, ◌^◌, ◌<◌, ◌≡◌, ap, ◌∙◌, arith, u64, some, ◌==◌, false,
}
use kess_os_paranoid_edition.Memory.{Memory, load64}
use kess_os_paranoid_edition.Memory.Same.{Same, Same-part, load64-Same}
use kess_os_paranoid_edition.MemoryMap.{load_desc, mem_size_loop, get_mem_size}

-- The sum of the `n` quadwords that start at the bytes from `p` on: each overlaps the next.
unfoldable pub overlapping : Memory → ℕ → ℕ → ℕ
overlapping m p zero = 0
overlapping m p (suc n) = load64 m p + overlapping m (p + 1) n

-- Where the `n_pages` of a round's descriptor stands.
pages_at : (p d e : ℕ) → p + (e + d) < 2 ^ 64 → u64 (p + (e + d)) + 24 ≡ p + d + 24 + e
pages_at p d e h = omega arith

-- Rounds that wrap add up to a sum that wraps.
add_round :
    (total x rest : ℕ)
    → u64 (u64 (total + x * 4096) + 4096 * rest) ≡ u64 (total + 4096 * (x + rest))
add_round total x rest = omega arith

mem_size_loop_lem :
    (m m' : Memory) (p d left e total : ℕ)
    → p + (e + d) + left < 2 ^ 64
    → e + left < 2 ^ 31
    → total < 2 ^ 64
    → Same m m' (p + d + 24 + e) (left + 7)
    → mem_size_loop m' p d left e total
      ≡ some (u64 (total + 4096 * overlapping m (p + d + 24 + e) left))
unfolding mem_size_loop overlapping load_desc
mem_size_loop_lem m m' p d zero e total fits int small same = ap some (omega arith)
mem_size_loop_lem m m' p d (suc left) e total fits int small same =
    let counts : e == 2 ^ 31 - 1 ≡ false = ground arith in
    let here : p + d + 24 + e + 1 ≡ p + d + 24 + (e + 1) = omega arith in
    let seen : load64 m' (p + d + 24 + e) ≡ load64 m (p + d + 24 + e) =
      load64-Same m m' (p + d + 24 + e) (
        Same-part m m' (p + d + 24 + e) (suc left + 7) (p + d + 24 + e) 8 same 0 (omega arith)
          (omega arith)) in
    let rest =
      mem_size_loop_lem m m' p d left (e + 1) (u64 (total + load64 m (p + d + 24 + e) * 4096))
        (omega arith) (omega arith) (omega arith)
        (Same-part m m' (p + d + 24 + e) (suc left + 7) (p + d + 24 + (e + 1)) (left + 7) same 1
          (omega arith) (omega arith)) in
    rw (pages_at p d e (omega arith), seen, here, counts)
      (rest
        ∙ ap some (
            add_round total (load64 m (p + d + 24 + e))
              (overlapping m (p + d + 24 + (e + 1)) left)))

-- Where the address of a map, a descriptor size and the count n stay below 2 ^ 64 together and n
-- below 2 ^ 31, getMemSize sees only the n + 7 bytes from byte 24 of the second descriptor on: in
-- every memory that agrees there it returns 4096 times the sum of the n overlapping quadwords that
-- start at the first n of them, modulo 2 ^ 64.
pub get_mem_size-Overlaps :
    (m m' : Memory) (m_map n desc_size : ℕ)
    → m_map + desc_size + n < 2 ^ 64
    → n < 2 ^ 31
    → Same m m' (m_map + desc_size + 24) (n + 7)
    → get_mem_size m' m_map n desc_size
      ≡ some (u64 (4096 * overlapping m (m_map + desc_size + 24) n))
unfolding get_mem_size
get_mem_size-Overlaps m m' m_map n desc_size fits int same =
    let start : m_map + desc_size + 24 + 0 ≡ m_map + desc_size + 24 = omega arith in
    let whole =
      mem_size_loop_lem m m' m_map desc_size n 0 0 (omega arith) (omega arith) (omega arith)
        (rw start same) in
    whole ∙ rw start (ap (λ k. some (u64 k)) (omega arith))
