-- ===== src/Vmm/Unmap.antt =====
-- `unmap_page` of kernel/src/arch/memory/impl/vmm.c against the processor's page walk.
use kess_os_paranoid_edition.Base.{
  ℕ, zero, suc, ◌+◌, ◌-◌, ◌*◌, ◌/◌, ◌%◌, ◌^◌, ◌<◌, ◌≡◌, ◌≢◌, ◌⊎◌, inl, inr, refl, sym, ap, ◌∙◌,
  arith, ◌==◌, some, none, true, ◌∷◌, Bool-cases, Option-cases, bit_and, bit_and_digit, bit_and-le,
}
use mathlib.Core.Path.{subst₂, ap₂}
use kess_os_paranoid_edition.Memory.{store64}
use kess_os_paranoid_edition.Outcome.{done}
use kess_os_paranoid_edition.Vmm.{Vmm, entry, is_present, addr_mask, unmap_page, bit_present}
use kess_os_paranoid_edition.Vmm.Paging.{frame, upper, slot, translate, Plan, IsTable, Paged}
use kess_os_paranoid_edition.Vmm.Paging.Entry.{
  odd→is_present, entry-store_self, entry-store_ne, index-slot, mask-frame, place-cases,
}
use kess_os_paranoid_edition.Vmm.Paging.Walk.{
  walk_agree, translate-identity, walk-eq-some, walk-0-some,
}

-- The value that `unmap_page` writes is not present.
cleared : (a : ℕ) → bit_and a (2 ^ 64 - 1 - bit_present) % 2 ≡ 0
cleared a = omega (arith, bit_and_digit a (2 ^ 64 - 1 - bit_present))

cleared-lt : (a : ℕ) → bit_and a (2 ^ 64 - 1 - bit_present) < 2 ^ 64
cleared-lt a = omega (arith, bit_and-le a (2 ^ 64 - 1 - bit_present))

abbrev without_leaf : Vmm → ℕ → ℕ → ℕ → Vmm
without_leaf s t i v = record s {
  mem = store64 s.mem (t + 8 * i) (bit_and (bit_and v addr_mask) (2 ^ 64 - 1 - bit_present));
  flushed = v ∷ s.flushed;
}

module _ {pml4 base limit : ℕ} {g : Plan} {s : Vmm} (p : Paged pml4 base limit g s) where
  -- The tables on the way to a mapped address.
  record Route (v : ℕ) : Type 0 where
    t2 : ℕ
    t1 : ℕ
    t0 : ℕ
    first : frame (entry s.mem pml4 (slot 3 v)) ≡ t2
    second : frame (entry s.mem t2 (slot 2 v)) ≡ t1
    third : frame (entry s.mem t1 (slot 1 v)) ≡ t0
    is2 : IsTable pml4 base s.placement t2
    level2 : g.level t2 ≡ 2
    is1 : IsTable pml4 base s.placement t1
    level1 : g.level t1 ≡ 1
    last : IsTable pml4 base s.placement t0
    level : g.level t0 ≡ 0
    covers : g.prefix t0 ≡ upper 1 v
    present : entry s.mem t0 (slot 0 v) % 2 ≡ 1

  route : (v : ℕ) → v < 2 ^ 48 → translate s.mem pml4 v ≡ some v → Route v
  route v low h =
      let a = walk-eq-some 2 s.mem pml4 v v h in
      let ia = p.inner pml4 (slot 3 v) 2 (inl refl) (omega arith) p.root.0 a.0 in
      let t2 = frame (entry s.mem pml4 (slot 3 v)) in
      let b = walk-eq-some 1 s.mem t2 v v a.1 in
      let ib = p.inner t2 (slot 2 v) 1 (inr ia.0) (omega arith) ia.1 b.0 in
      let t1 = frame (entry s.mem t2 (slot 2 v)) in
      let c = walk-eq-some 0 s.mem t1 v v b.1 in
      let ic = p.inner t1 (slot 1 v) 0 (inr ib.0) (omega arith) ib.1 c.0 in
      record {
        t2 = t2;
        t1 = t1;
        t0 = frame (entry s.mem t1 (slot 1 v));
        first = refl;
        second = refl;
        third = refl;
        is2 = inr ia.0;
        level2 = ia.1;
        is1 = inr ib.0;
        level1 = ib.1;
        last = inr ic.0;
        level = ic.1;
        covers = omega (arith, ia, ib, ic, p.root);
        present = (walk-0-some s.mem (frame (entry s.mem t1 (slot 1 v))) v v c.1).0;
      }

module _ {pml4 base limit : ℕ} {g : Plan} {s : Vmm} (p : Paged pml4 base limit g s) where
  -- The loop-free walk of `unmap_page` ends at the route's page table.
  unmap_page-done :
      (v : ℕ)
      → v % 4096 ≡ 0
      → (q : Route p v) → unmap_page pml4 v s ≡ done true (without_leaf s q.t0 (slot 0 v) v)
  unfolding unmap_page
  unmap_page-done v al q =
      let (i3, i2, i1, i0) = index-slot v in
      let whole : (v % 0x1000 == 0) ≡ true = ground arith in
      let there : is_present (entry s.mem q.t0 (slot 0 v)) ≡ true = odd→is_present _ q.present in
      rw
        (
          whole, mask-frame, mask-frame, mask-frame, i3, i2, i1, i0, q.first, q.second, q.third,
          there,
        )
        refl

  module _ (v : ℕ) (q : Route p v) where
    table_aligned : (t : ℕ) → IsTable pml4 base s.placement t → t % 4096 ≡ 0
    table_aligned t h = ground (arith, p.aligned)

    entry_cleared : entry (without_leaf s q.t0 (slot 0 v) v).mem q.t0 (slot 0 v) % 2 ≡ 0
    entry_cleared =
        let value = bit_and (bit_and v addr_mask) (2 ^ 64 - 1 - bit_present) in
        ap (λ (x : ℕ). x % 2)
          (entry-store_self s.mem q.t0 (slot 0 v) value (cleared-lt (bit_and v addr_mask)))
        ∙ cleared (bit_and v addr_mask)

    entry_other :
        (t j : ℕ)
        → IsTable pml4 base s.placement t
        → j < 512
        → (t ≢ q.t0) ⊎ (j ≢ slot 0 v)
        → entry (without_leaf s q.t0 (slot 0 v) v).mem t j ≡ entry s.mem t j
    entry_other t j ht hj ne =
        entry-store_ne s.mem q.t0 (slot 0 v) _ t j (table_aligned q.t0 q.last) (table_aligned t ht)
          (omega arith) hj ne

    upper_level : {t l : ℕ} → t ≡ q.t0 → g.level t ≡ suc l → ⊥
    upper_level e lv = omega (arith, q.level, ap g.level e)

    unmapped-Paged : Paged pml4 base limit g (without_leaf s q.t0 (slot 0 v) v)
    unmapped-Paged = record {
      aligned = p.aligned;
      bounds = p.bounds;
      apart = p.apart;
      root = p.root;
      inner = λ t j l ht hj lv pr.
          let same = entry_other t j ht hj (inl (λ e. upper_level e lv)) in
          rw same (p.inner t j l ht hj lv (rw same at pr));
      leaf = λ t j ht hj lv pr.
          let same = entry_other t j ht hj (differ t j pr) in
          rw same (p.leaf t j ht hj lv (rw same at pr));
    }
      where
        clash :
            {t j : ℕ}
            → t ≡ q.t0
            → j ≡ slot 0 v
            → entry (without_leaf s q.t0 (slot 0 v) v).mem t j % 2 ≡ 1
            → ⊥
        clash e f pr = omega (
          arith,
          entry_cleared,
          subst₂ (λ a b. entry (without_leaf s q.t0 (slot 0 v) v).mem a b % 2 ≡ 1) e f pr,
        )

        differ :
            (t j : ℕ)
            → entry (without_leaf s q.t0 (slot 0 v) v).mem t j % 2 ≡ 1
            → (t ≢ q.t0) ⊎ (j ≢ slot 0 v)
        differ t j pr = elim (place-cases q.t0 (slot 0 v) t j) [
          | inl (e, f) ↦ absurd (clash e f pr)
          | inr ne ↦ ne
        ]

    translate_other :
        (w : ℕ)
        → w < 2 ^ 48
        → w / 2 ^ 12 ≢ v / 2 ^ 12
        → translate (without_leaf s q.t0 (slot 0 v) v).mem pml4 w ≡ translate s.mem pml4 w
    translate_other w low ne =
        walk_agree p (without_leaf s q.t0 (slot 0 v) v).mem w
          (λ l t ht lv covers. entry_other t (slot l w) ht (omega arith) (apart l t lv covers)) 3
          pml4 (inl refl) p.root.0 (p.root.1 ∙ omega arith)
      where
        apart :
            (l t : ℕ)
            → g.level t ≡ l
            → g.prefix t ≡ upper (suc l) w
            → (t ≢ q.t0) ⊎ (slot l w ≢ slot 0 v)
        apart zero t lv covers = elim (Bool-cases (t == q.t0)) [
          | inl e ↦ inr (λ f. ne (omega (arith, q.covers, covers, f, ap g.prefix (same e))))
          | inr e ↦ inl (ground arith)
        ]
          where
            same : (t == q.t0) ≡ true → t ≡ q.t0
            same e = ground arith
        apart (suc l) t lv covers = inl (λ e. upper_level e lv)

    translate_gone :
        (w : ℕ)
        → w < 2 ^ 48
        → w / 2 ^ 12 ≡ v / 2 ^ 12
        → translate (without_leaf s q.t0 (slot 0 v) v).mem pml4 w ≡ none
    translate_gone w low same =
        elim (Option-cases (translate (without_leaf s q.t0 (slot 0 v) v).mem pml4 w)) [
          | inl e ↦ e
          | inr (r, e) ↦ absurd (
              found (
                route unmapped-Paged w low
                  (e ∙ ap some (translate-identity unmapped-Paged w r low e))))
        ]
      where
        slots :
            (slot 3 w ≡ slot 3 v)
            × (slot 2 w ≡ slot 2 v)
            × (slot 1 w ≡ slot 1 v)
            × (slot 0 w ≡ slot 0 v)
        slots = omega arith

        -- The new walk passes the same tables.
        found : Route unmapped-Paged w → ⊥
        found r =
            let m = (without_leaf s q.t0 (slot 0 v) v).mem in
            let kept =
              λ (t j l : ℕ) (ht : IsTable pml4 base s.placement t) (hj : j < 512)
                  (lv : g.level t ≡ suc l).
                entry_other t j ht hj (inl (λ e. upper_level e lv)) in
            let e2 : r.t2 ≡ q.t2 =
              sym r.first
              ∙ ap frame (
                  ap (entry m pml4) slots.0
                  ∙ kept pml4 (slot 3 v) 2 (inl refl) (omega arith) p.root.0)
              ∙ q.first in
            let e1 : r.t1 ≡ q.t1 =
              sym r.second
              ∙ ap frame
                  (ap₂ (entry m) e2 slots.1 ∙ kept q.t2 (slot 2 v) 1 q.is2 (omega arith) q.level2)
              ∙ q.second in
            let e0 : r.t0 ≡ q.t0 =
              sym r.third
              ∙ ap frame
                  (ap₂ (entry m) e1 slots.2 ∙ kept q.t1 (slot 1 v) 0 q.is1 (omega arith) q.level1)
              ∙ q.third in
            omega
              (arith, entry_cleared, r.present, ap (λ (x : ℕ). x % 2) (ap₂ (entry m) e0 slots.3))

-- What `unmap_page` leaves: exactly the page of `v` is gone from the translation.
pub record IsUnmapped (pml4 base limit v : ℕ) (g : Plan) (s u : Vmm) : Type 0 where
  pub paged : Paged pml4 base limit g u
  pub gone : (w : ℕ) → w < 2 ^ 48 → w / 2 ^ 12 ≡ v / 2 ^ 12 → translate u.mem pml4 w ≡ none
  pub others :
      (w : ℕ)
      → w < 2 ^ 48
      → w / 2 ^ 12 ≢ v / 2 ^ 12
      → translate u.mem pml4 w ≡ translate s.mem pml4 w
  pub flushed : u.flushed ≡ v ∷ s.flushed
  pub placement : u.placement ≡ s.placement
  pub usable : u.segment_usable ≡ s.segment_usable

-- Where the tables are in shape, unmap_page of a page-aligned mapped address below 2 ^ 48 returns
-- true, flushes the address, keeps the tables in shape and the allocator as it was, and takes
-- exactly that page out of the translation.
pub unmap_page-IsUnmapped :
    (pml4 base limit v : ℕ) (g : Plan) (s : Vmm)
    → Paged pml4 base limit g s
    → v < 2 ^ 48
    → v % 4096 ≡ 0
    → translate s.mem pml4 v ≡ some v
    → (u : Vmm) × (unmap_page pml4 v s ≡ done true u) × IsUnmapped pml4 base limit v g s u
unmap_page-IsUnmapped pml4 base limit v g s p low al h =
    let q = route p v low h in
    (
      without_leaf s q.t0 (slot 0 v) v,
      unmap_page-done p v al q,
      record {
        paged = unmapped-Paged p v q;
        gone = translate_gone p v q;
        others = translate_other p v q;
        flushed = refl;
        placement = refl;
        usable = refl;
      },
    )
