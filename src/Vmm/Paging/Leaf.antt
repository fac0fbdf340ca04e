-- ===== src/Vmm/Paging/Leaf.antt =====
-- The last step of `map_page`, the write of a leaf entry, keeps the tables in shape.
use kess_os_paranoid_edition.Base.{
  ℕ, suc, ◌+◌, ◌*◌, ◌/◌, ◌%◌, ◌^◌, ◌<◌, ◌≡◌, ◌≢◌, ◌⊎◌, inl, inr, refl, sym, ap, ◌∙◌, arith, bit_and,
  bit_or,
}
use mathlib.Core.Path.{subst₂}
use kess_os_paranoid_edition.Memory.{store64}
use kess_os_paranoid_edition.Vmm.{Vmm, entry, addr_mask}
use kess_os_paranoid_edition.Vmm.Paging.{frame, Plan, IsTable, Paged, Grown}
use kess_os_paranoid_edition.Vmm.Paging.Entry.{
  entry-store_self, entry-store_ne, written-value, place-cases,
}

abbrev pub with_leaf : Vmm → ℕ → ℕ → ℕ → ℕ → Vmm
with_leaf s table i addr flags = record s {
  mem = store64 s.mem (table + 8 * i) (bit_or (bit_and addr addr_mask) flags);
}

module _ (pml4 base limit flags addr : ℕ) (fits : flags < 128) (odd : flags % 2 ≡ 1)
    (low : addr < 2 ^ 48) {g : Plan} {s : Vmm} (p : Paged pml4 base limit g s) (table i : ℕ)
    (is : IsTable pml4 base s.placement table) (at : g.level table ≡ 0) (hi : i < 512)
    (covers : g.prefix table * 512 + i ≡ addr / 4096) (free : entry s.mem table i % 2 ≡ 0) where
  table_aligned : (t : ℕ) → IsTable pml4 base s.placement t → t % 4096 ≡ 0
  table_aligned t h = ground (arith, p.aligned)

  pub leaf_self : entry (with_leaf s table i addr flags).mem table i ≡ addr / 4096 * 4096 + flags
  leaf_self =
      entry-store_self s.mem table i (bit_or (bit_and addr addr_mask) flags)
        (omega (arith, written-value addr flags (omega arith) fits))
      ∙ written-value addr flags (omega arith) fits

  leaf_other :
      (t j : ℕ)
      → IsTable pml4 base s.placement t
      → j < 512
      → (t ≢ table) ⊎ (j ≢ i)
      → entry (with_leaf s table i addr flags).mem t j ≡ entry s.mem t j
  leaf_other t j ht hj ne =
      entry-store_ne s.mem table i _ t j (table_aligned table is) (table_aligned t ht) hi hj ne

  leaf_lem :
      (t j : ℕ)
      → IsTable pml4 base s.placement t
      → j < 512
      → g.level t ≡ 0
      → entry (with_leaf s table i addr flags).mem t j % 2 ≡ 1
      → frame (entry (with_leaf s table i addr flags).mem t j) ≡ (g.prefix t * 512 + j) * 4096
  leaf_lem t j ht hj lv pr = elim (place-cases table i t j) [
    | inl (e, f) ↦
        subst₂
          (λ a b.
            frame (entry (with_leaf s table i addr flags).mem a b) ≡ (g.prefix a * 512 + b) * 4096)
          (sym e) (sym f) (rw (leaf_self, covers) (omega arith))
    | inr ne ↦ let same = leaf_other t j ht hj ne in rw same (p.leaf t j ht hj lv (rw same at pr))
  ]

  pub leaf-Paged : Paged pml4 base limit g (with_leaf s table i addr flags)
  leaf-Paged = record {
    aligned = p.aligned;
    bounds = p.bounds;
    apart = p.apart;
    root = p.root;
    inner = λ t j l ht hj lv pr.
        let same = leaf_other t j ht hj (inl (λ e. upper_level e lv)) in
        rw same (p.inner t j l ht hj lv (rw same at pr));
    leaf = leaf_lem;
  }
    where
      upper_level : {t l : ℕ} → t ≡ table → g.level t ≡ suc l → ⊥
      upper_level e lv = omega (arith, at, ap g.level e)

  pub leaf-Grown : Grown pml4 base limit g s g (with_leaf s table i addr flags)
  leaf-Grown = record {
    planned = λ t ht. (refl, refl);
    higher = omega arith;
    spent = omega arith;
    kept = λ t j ht hj pr. leaf_other t j ht hj (differ t j pr);
  }
    where
      clash : {t j : ℕ} → t ≡ table → j ≡ i → entry s.mem t j % 2 ≡ 1 → ⊥
      clash e f pr = ground (arith, free)

      differ : (t j : ℕ) → entry s.mem t j % 2 ≡ 1 → (t ≢ table) ⊎ (j ≢ i)
      differ t j pr = elim (place-cases table i t j) [
        | inl (e, f) ↦ absurd (clash e f pr)
        | inr ne ↦ ne
      ]
