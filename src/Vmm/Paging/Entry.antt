-- ===== src/Vmm/Paging/Entry.antt =====
-- Entries of the tables in memory: what one write changes, and the value that the kernel writes.
use kess_os_paranoid_edition.Base.{
  ℕ, ◌+◌, ◌*◌, ◌/◌, ◌%◌, ◌^◌, ◌<◌, ◌≡◌, ◌≢◌, ◌⊎◌, inl, inr, ◌∙◌, arith, ◌==◌, true, false, bit_and,
  bit_or, bit_and_frame, bit_or_field, bit_and_mask, bit_or_digit, bit_or-zero, u32, Bool-cases,
}
use kess_os_paranoid_edition.Memory.{Memory, store64, memzero}
use kess_os_paranoid_edition.Memory.Laws.{
  load64-store64, load64-store64_ne, load64-memzero, load64-memzero_ne,
}
use kess_os_paranoid_edition.Vmm.{entry, is_present, addr_mask, index}
use kess_os_paranoid_edition.Vmm.Paging.{frame, slot}

module _ (m : Memory) (t i : ℕ) (e : ℕ) where
  pub entry-store_self : e < 2 ^ 64 → entry (store64 m (t + 8 * i) e) t i ≡ e
  entry-store_self h = load64-store64 m (t + 8 * i) e h

  pub entry-store_ne :
      (u j : ℕ)
      → t % 4096 ≡ 0
      → u % 4096 ≡ 0
      → i < 512
      → j < 512
      → (u ≢ t) ⊎ (j ≢ i)
      → entry (store64 m (t + 8 * i) e) u j ≡ entry m u j
  entry-store_ne u j ht hu hi hj ne = load64-store64_ne m (t + 8 * i) e (u + 8 * j) (grind arith)

module _ (m : Memory) (page : ℕ) where
  pub entry-memzero_self : (j : ℕ) → j < 512 → entry (memzero page 4096 m) page j ≡ 0
  entry-memzero_self j h = load64-memzero page 4096 m (page + 8 * j) (omega arith) (omega arith)

  pub entry-memzero_ne :
      (u j : ℕ)
      → page % 4096 ≡ 0
      → u % 4096 ≡ 0
      → j < 512
      → u ≢ page
      → entry (memzero page 4096 m) u j ≡ entry m u j
  entry-memzero_ne u j hp hu hj ne = load64-memzero_ne page 4096 m (u + 8 * j) (grind arith)

pub is_present_iff : (e : ℕ) → (is_present e ≡ true) → e % 2 ≡ 1
is_present_iff e h = ground (arith, bit_and_mask 1 e)

pub odd→is_present : (e : ℕ) → e % 2 ≡ 1 → is_present e ≡ true
odd→is_present e h = ground (arith, bit_and_mask 1 e)

pub not-is_present : (e : ℕ) → (is_present e ≡ false) → e % 2 ≡ 0
not-is_present e h = ground (arith, bit_and_mask 1 e)

-- The indices that `map_page` and `unmap_page` compute are those of the walk.
pub index-slot :
    (v : ℕ)
    → (index 3 v ≡ slot 3 v)
      × (index 2 v ≡ slot 2 v)
      × (index 1 v ≡ slot 1 v)
      × (index 0 v ≡ slot 0 v)
index-slot v = omega (
  arith,
  bit_and_mask 9 (v / 2 ^ 39),
  bit_and_mask 9 (v / 2 ^ 30),
  bit_and_mask 9 (v / 2 ^ 21),
  bit_and_mask 9 (v / 2 ^ 12),
)

pub mask-frame : (a : ℕ) → bit_and a addr_mask ≡ frame a
mask-frame a = bit_and_frame 12 40 a

-- An entry for the page of `a` with seven bits of flags.
module _ (a flags : ℕ) (ha : a < 2 ^ 52) (hf : flags < 128) where
  pub written-value : bit_or (bit_and a addr_mask) flags ≡ a / 4096 * 4096 + flags
  written-value =
      rw mask-frame (bit_or_field 12 (a / 2 ^ 12 % 2 ^ 40) flags (omega arith) ∙ omega arith)

  pub frame-written : frame (bit_or (bit_and a addr_mask) flags) ≡ a / 4096 * 4096
  frame-written = rw written-value (omega arith)

-- `flags |= PAGE_BIT_P_PRESENT`
pub present_flags :
    (flags : ℕ) → flags < 128 → (bit_or (u32 flags) 1 < 128) × (bit_or (u32 flags) 1 % 2 ≡ 1)
present_flags flags h = omega (arith, bit_or_digit (u32 flags) 1, bit_or-zero (u32 flags / 2))

-- An entry is the one that a write changes, or another.
pub place-cases : (table i t j : ℕ) → ((t ≡ table) × (j ≡ i)) ⊎ ((t ≢ table) ⊎ (j ≢ i))
place-cases table i t j = elim (Bool-cases (t == table)) [
  | inl e ↦ elim (Bool-cases (j == i)) [
    | inl f ↦ inl (ground arith)
    | inr f ↦ inr (inr (ground arith))
  ]
  | inr e ↦ inr (inl (ground arith))
]
