-- ===== src/Memory.antt =====
-- The machine's memory, byte by byte, and the accesses that compiled C makes to it: little-endian
-- loads and stores, and `memzero` of kernel/src/util/impl/mem.c. An access does not wrap at the
-- end of the address space.
pub mod Laws
pub mod Same
use kess_os_paranoid_edition.Base.{
  ℕ, zero, suc, ◌+◌, ◌-◌, ◌*◌, ◌/◌, ◌%◌, ◌^◌, leb, ltb, ◌==◌, if◌then◌else◌, ◌&&◌,
}

abbrev pub Memory : Type 0
Memory = ℕ → ℕ

unfoldable pub store8 : Memory → ℕ → ℕ → Memory
store8 m p v q = if q == p then v % 256 else m q

unfoldable pub load16 : Memory → ℕ → ℕ
load16 m p = m p + m (p + 1) * 2 ^ 8

unfoldable pub load32 : Memory → ℕ → ℕ
unfolding load16
load32 m p = load16 m p + load16 m (p + 2) * 2 ^ 16

unfoldable pub load64 : Memory → ℕ → ℕ
unfolding load32
load64 m p = load32 m p + load32 m (p + 4) * 2 ^ 32

-- Byte `k` of a value, the lowest first.
unfoldable pub byte : ℕ → ℕ → ℕ
byte v k = v / 2 ^ (8 * k) % 256

unfoldable pub store32 : Memory → ℕ → ℕ → Memory
unfolding byte
store32 m p v q = if leb p q && ltb q (p + 4) then byte v (q - p) else m q

unfoldable pub store64 : Memory → ℕ → ℕ → Memory
unfolding byte
store64 m p v q = if leb p q && ltb q (p + 8) then byte v (q - p) else m q

-- The loop of `memzero` at index `i`, with `left` rounds to go.
unfoldable pub memzero_loop : ℕ → ℕ → ℕ → Memory → Memory
unfolding store8
memzero_loop zero addr i m = m
memzero_loop (suc left) addr i m = memzero_loop left addr (i + 1) (store8 m (addr + i) 0)

unfoldable pub memzero : ℕ → ℕ → Memory → Memory
unfolding memzero_loop
memzero addr n m = memzero_loop n addr 0 m
