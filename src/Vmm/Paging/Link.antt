-- ===== src/Vmm/Paging/Link.antt =====
-- The step of `map_page` that hangs a fresh, zeroed page below a table keeps the tables a tree.
use kess_os_paranoid_edition.Base.{
  ℕ, suc, ◌+◌, ◌-◌, ◌*◌, ◌/◌, ◌%◌, ◌^◌, ◌<◌, ◌≡◌, ◌≢◌, ◌⊎◌, inl, inr, sym, ap, ◌∙◌, arith, ◌==◌,
  bit_and, bit_or, if◌then◌else◌, Bool-cases, u64,
}
use mathlib.Core.Path.{subst₂}
use kess_os_paranoid_edition.Memory.{store64, memzero}
use kess_os_paranoid_edition.MemoryMap.{page_size}
use kess_os_paranoid_edition.Vmm.{Vmm, entry, addr_mask}
use kess_os_paranoid_edition.Vmm.Paging.{frame, Plan, IsAllocated, IsTable, Paged, Grown}
use kess_os_paranoid_edition.Vmm.Paging.Grow.{IsTable-mono}
use kess_os_paranoid_edition.Vmm.Paging.Entry.{
  entry-store_self, entry-store_ne, entry-memzero_self, entry-memzero_ne, written-value,
  place-cases,
}

-- The state after the allocation, the clearing and the write.
abbrev pub link : Vmm → ℕ → ℕ → ℕ → Vmm
link s table i flags = record s {
  mem =
      store64 (memzero s.placement page_size s.mem) (table + 8 * i)
        (bit_or (bit_and s.placement addr_mask) flags);
  segment_usable = s.segment_usable - 1;
  placement = u64 (s.placement + page_size);
}

abbrev pub link_plan : Plan → ℕ → ℕ → ℕ → Plan
link_plan g page l prefix = record {
  level = λ t. if t == page then l else g.level t;
  prefix = λ t. if t == page then prefix else g.prefix t;
}

module _ (pml4 base limit flags : ℕ) (fits : flags < 128) (odd : flags % 2 ≡ 1) {g : Plan} {s : Vmm}
    (p : Paged pml4 base limit g s) (table i l : ℕ) (is : IsTable pml4 base s.placement table)
    (at : g.level table ≡ suc l) (hi : i < 512) (free : entry s.mem table i % 2 ≡ 0)
    (more : s.segment_usable ≢ 0) where
  value : bit_or (bit_and s.placement addr_mask) flags ≡ s.placement + flags
  value = omega (arith, written-value s.placement flags (omega (arith, p)) fits, p)

  table_aligned : table % 4096 ≡ 0
  table_aligned = ground (arith, p.aligned)

  table-ne-page : table ≢ s.placement
  table-ne-page = omega (arith, p)

  entry_self : entry (link s table i flags).mem table i ≡ s.placement + flags
  entry_self = ground (
    arith,
    value,
    entry-store_self (memzero s.placement page_size s.mem) table i
        (bit_or (bit_and s.placement addr_mask) flags) (omega (arith, value, p)),
  )

  pub entry_page : (j : ℕ) → j < 512 → entry (link s table i flags).mem s.placement j ≡ 0
  entry_page j hj = ground (
    arith,
    table-ne-page,
    table_aligned,
    p.aligned,
    entry-store_ne (memzero s.placement page_size s.mem) table i
        (bit_or (bit_and s.placement addr_mask) flags) s.placement j,
    entry-memzero_self s.mem s.placement j hj,
  )

  entry_other :
      (u j : ℕ)
      → IsTable pml4 base s.placement u
      → j < 512
      → (u ≢ table) ⊎ (j ≢ i)
      → entry (link s table i flags).mem u j ≡ entry s.mem u j
  entry_other u j hu hj ne = ground (
    arith,
    p.bounds,
    p.apart,
    table_aligned,
    p.aligned,
    entry-store_ne (memzero s.placement page_size s.mem) table i
        (bit_or (bit_and s.placement addr_mask) flags) u j,
    entry-memzero_ne s.mem s.placement u j,
  )

  -- A table of the new state is the fresh page or an old one.
  table-cases :
      (t : ℕ)
      → IsTable pml4 base (link s table i flags).placement t
      → (t ≡ s.placement) ⊎ IsTable pml4 base s.placement t
  table-cases t (inl e) = inr (inl e)
  table-cases t (inr h) = elim (Bool-cases (t == s.placement)) [
    | inl e ↦ inl (ground arith)
    | inr e ↦ inr (inr (ground (arith, p.aligned, p.bounds)))
  ]

  -- An old table keeps its place in the plan.
  plan_old :
      (t prefix : ℕ)
      → IsTable pml4 base s.placement t
      → ((link_plan g s.placement l prefix).level t ≡ g.level t)
        × ((link_plan g s.placement l prefix).prefix t ≡ g.prefix t)
  plan_old t prefix h = ground (arith, p.bounds, p.apart)

  abbrev prefix_below : ℕ
  prefix_below = g.prefix table * 512 + i

  -- What `Paged.inner` asks of one entry of the new state.
  abbrev Inner : ℕ → ℕ → ℕ → Type 0
  Inner t j k =
      (link_plan g s.placement l prefix_below).level t ≡ suc k
      → entry (link s table i flags).mem t j % 2 ≡ 1
      → IsAllocated base (link s table i flags).placement
          (frame (entry (link s table i flags).mem t j))
        × ((link_plan g s.placement l prefix_below).level
              (frame (entry (link s table i flags).mem t j))
            ≡ k)
        × ((link_plan g s.placement l prefix_below).prefix
              (frame (entry (link s table i flags).mem t j))
            ≡ (link_plan g s.placement l prefix_below).prefix t * 512 + j)
        × (entry (link s table i flags).mem t j / 2 ^ 7 % 2 ≡ 0)

  Inner-self : (k : ℕ) → Inner table i k
  Inner-self k lv pr =
      rw entry_self (ground (arith, p.aligned, p.bounds, plan_old table prefix_below is, frame_new))
    where
      frame_new : frame (s.placement + flags) ≡ s.placement
      frame_new = omega (arith, p)

  Inner-other :
      (t j k : ℕ) → IsTable pml4 base s.placement t → j < 512 → (t ≢ table) ⊎ (j ≢ i) → Inner t j k
  Inner-other t j k ht hj ne lv pr =
      let same = entry_other t j ht hj ne in
      let old = p.inner t j k ht hj (sym (plan_old t prefix_below ht).0 ∙ lv) (rw same at pr) in
      rw same (ground (arith, old, plan_old t prefix_below ht, p.bounds))

  page_empty :
      {t j : ℕ} → t ≡ s.placement → j < 512 → entry (link s table i flags).mem t j % 2 ≡ 1 → ⊥
  page_empty e hj pr = omega (arith, entry_page _ hj, rw e at pr)

  inner_lem :
      (t j k : ℕ) → IsTable pml4 base (link s table i flags).placement t → j < 512 → Inner t j k
  inner_lem t j k hu hj lv pr = elim (table-cases t hu) [
    | inl e ↦ absurd (page_empty e hj pr)
    | inr ht ↦ elim (place-cases table i t j) [
      | inl (e, f) ↦ subst₂ (λ a b. Inner a b k) (sym e) (sym f) (Inner-self k) lv pr
      | inr ne ↦ Inner-other t j k ht hj ne lv pr
    ]
  ]

  leaf_lem :
      (t j : ℕ)
      → IsTable pml4 base (link s table i flags).placement t
      → j < 512
      → (link_plan g s.placement l prefix_below).level t ≡ 0
      → entry (link s table i flags).mem t j % 2 ≡ 1
      → frame (entry (link s table i flags).mem t j)
        ≡ ((link_plan g s.placement l prefix_below).prefix t * 512 + j) * 4096
  leaf_lem t j hu hj lv pr = elim (table-cases t hu) [
    | inl e ↦ absurd (page_empty e hj pr)
    | inr ht ↦
        let at_leaf = sym (plan_old t prefix_below ht).0 ∙ lv in
        let same = entry_other t j ht hj (inl (λ e. other_level e at_leaf)) in
        rw same (p.leaf t j ht hj at_leaf (rw same at pr) ∙ prefix_kept ht)
  ]
    where
      other_level : t ≡ table → g.level t ≡ 0 → ⊥
      other_level e z = omega (arith, at, ap g.level e)

      prefix_kept :
          IsTable pml4 base s.placement t
          → (g.prefix t * 512 + j) * 4096
            ≡ ((link_plan g s.placement l prefix_below).prefix t * 512 + j) * 4096
      prefix_kept ht = ap (λ (x : ℕ). (x * 512 + j) * 4096) (sym (plan_old t prefix_below ht).1)

  -- The entry written, and the old table, as the new state has them.
  pub link-present : entry (link s table i flags).mem table i % 2 ≡ 1
  link-present = omega (arith, entry_self, p.aligned)

  pub link-IsTable : IsTable pml4 base (link s table i flags).placement table
  link-IsTable = IsTable-mono pml4 base table (omega (arith, p)) is

  pub link-Paged :
      Paged pml4 base limit (link_plan g s.placement l prefix_below) (link s table i flags)
  link-Paged = record {
    aligned = omega (arith, p);
    bounds = omega (arith, p);
    apart = p.apart;
    root = ground (arith, p.root, p.bounds, p.apart);
    inner = inner_lem;
    leaf = leaf_lem;
  }

  pub link-Grown :
      Grown pml4 base limit g s (link_plan g s.placement l prefix_below) (link s table i flags)
  link-Grown = record {
    planned = λ t ht. plan_old t prefix_below ht;
    higher = omega (arith, p);
    spent = omega (arith, p);
    kept = λ t j ht hj pr. entry_other t j ht hj (differ t j pr);
  }
    where
      clash : {t j : ℕ} → t ≡ table → j ≡ i → entry s.mem t j % 2 ≡ 1 → ⊥
      clash e f pr = ground (arith, free)

      differ : (t j : ℕ) → entry s.mem t j % 2 ≡ 1 → (t ≢ table) ⊎ (j ≢ i)
      differ t j pr = elim (place-cases table i t j) [
        | inl (e, f) ↦ absurd (clash e f pr)
        | inr ne ↦ ne
      ]
