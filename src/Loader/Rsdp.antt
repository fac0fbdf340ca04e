-- ===== src/Loader/Rsdp.antt =====
-- The search for the RSDP in gnu-efi/bootloader/main.c.
use kess_os_paranoid_edition.Base.{
  ℕ, zero, suc, ◌+◌, ◌*◌, ◌<◌, ◌≡◌, ap, ◌∙◌, arith, Bool, true, false, Bool-cases, ltb, inl, inr,
  not, ◌&&◌,
}
use mathlib.Core.Path.{subst}
use kess_os_paranoid_edition.Memory.{Memory, load64}
use kess_os_paranoid_edition.Strings.{ℤ}
use kess_os_paranoid_edition.Loader.{is_zero, memcmp, rsdp_loop, find_rsdp}

module _ (compare_guid : Memory → ℕ → ℤ) (rsd_ptr : ℕ) (m : Memory) where
  abbrev pub vendor_table : ℕ → ℕ → ℕ
  vendor_table config_table i = load64 m (config_table + 24 * i + 16)

  -- The GUID that is compared is that of entry 2i, and the table that of entry i.
  abbrev pub is_taken : ℕ → ℕ → Bool
  is_taken config_table i =
      not (is_zero (compare_guid m (config_table + 24 * (i + i))))
      && is_zero (memcmp m rsd_ptr (vendor_table config_table i) 8)

  -- The last of `n` entries that is taken, if one is.
  pub data IsFound (config_table n : ℕ) : ℕ → Type 0 where
    found :
        (i : ℕ)
        → i < n
        → is_taken config_table i ≡ true
        → ((k : ℕ) → i < k → k < n → is_taken config_table k ≡ false)
        → IsFound config_table n (vendor_table config_table i)
    missed : ((k : ℕ) → k < n → is_taken config_table k ≡ false) → IsFound config_table n 0

  module _ (base : ℕ) where
    keep : (i r : ℕ) → IsFound base i r → is_taken base i ≡ false → IsFound base (suc i) r
    keep i r (found j h taken after) free =
        found j (omega arith) taken (λ k h1 h2. upto i j k after free h1 h2)
      where
        upto :
            (i j k : ℕ)
            → ((k : ℕ) → j < k → k < i → is_taken base k ≡ false)
            → is_taken base i ≡ false
            → j < k
            → k < suc i
            → is_taken base k ≡ false
        upto i j k after free h1 h2 = elim (Bool-cases (ltb k i)) [
          | inl inside ↦ after k h1 (ground arith)
          | inr last ↦ ap (is_taken base) (ground arith) ∙ free
        ]
    keep i r (missed none_at) free = missed (λ k h. elim (Bool-cases (ltb k i)) [
      | inl inside ↦ none_at k (ground arith)
      | inr last ↦ ap (is_taken base) (ground arith) ∙ free
    ])

    rsdp_loop-IsFound :
        (left i r : ℕ)
        → IsFound base i r
        → IsFound base (i + left) (rsdp_loop compare_guid rsd_ptr left m (base + 24 * i) i r)
    unfolding rsdp_loop
    rsdp_loop-IsFound zero i r h = let whole : i + 0 ≡ i = omega arith in rw whole h
    rsdp_loop-IsFound (suc left) i r h =
        let guid : base + 24 * i + 24 * i ≡ base + 24 * (i + i) = omega arith in
        let next : base + 24 * i + 24 ≡ base + 24 * (i + 1) = omega arith in
        let count : i + suc left ≡ i + 1 + left = omega arith in
        let more : i + 1 ≡ suc i = omega arith in
        rw (count, guid, next)
          (elim (Bool-cases (is_taken base i)) [
            | inl hit ↦ rw hit (
                rsdp_loop-IsFound left (i + 1) (vendor_table base i)
                  (rw more (found i (omega arith) hit (λ k h1 h2. absurd (omega arith)))))
            | inr free ↦ rw free (rsdp_loop-IsFound left (i + 1) r (rw more (keep i r h free)))
          ])

    -- The search for the RSDP returns the table of the last entry i that has the signature and for
    -- which CompareGuid of entry 2i is not 0, or a null pointer if there is none.
    pub find_rsdp-IsFound : (n : ℕ) → IsFound base n (find_rsdp compare_guid rsd_ptr n m base)
    unfolding find_rsdp
    find_rsdp-IsFound n =
        let start : base + 24 * 0 ≡ base = omega arith in
        let whole : 0 + n ≡ n = omega arith in
        subst (λ p. IsFound base n (rsdp_loop compare_guid rsd_ptr n m p 0 0)) start
          (subst (λ k. IsFound base k (rsdp_loop compare_guid rsd_ptr n m (base + 24 * 0) 0 0))
            whole (rsdp_loop-IsFound n 0 0 (missed (λ k h. absurd (omega arith)))))
