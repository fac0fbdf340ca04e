-- ===== src/Vmm/Paging/Reach.antt =====
-- `map_page` builds the path to a page, level by level.
use kess_os_paranoid_edition.Base.{
  ℕ, suc, ◌+◌, ◌*◌, ◌/◌, ◌%◌, ◌^◌, ◌≤◌, ◌<◌, ◌≡◌, ◌≢◌, inl, inr, refl, sym, ap, ◌∙◌, arith, ◌==◌,
  some, Bool-cases, bit_and,
}
use kess_os_paranoid_edition.Outcome
use kess_os_paranoid_edition.Outcome.{Cmd, Ensures, returns, halts}
use kess_os_paranoid_edition.Vmm.Panic.{log-halts}
use kess_os_paranoid_edition.Vmm.{
  Vmm, entry, is_present, addr_mask, ensure_table, map_leaf, map_through, index,
}
use kess_os_paranoid_edition.Vmm.Paging.{
  upper, slot, walk, translate, Plan, IsTable, Paged, Grown, Extends,
}
use kess_os_paranoid_edition.Vmm.Paging.Entry.{
  is_present_iff, not-is_present, index-slot, mask-frame,
}
use kess_os_paranoid_edition.Vmm.Paging.Grow.{
  IsTable-mono, Grown-trans, extends_refl, extends_trans,
}
use kess_os_paranoid_edition.Vmm.Paging.Link.{
  link, link_plan, link-Paged, link-Grown, link-present, link-IsTable,
}
use kess_os_paranoid_edition.Vmm.Paging.Leaf.{with_leaf, leaf-Paged, leaf-Grown, leaf_self}
use kess_os_paranoid_edition.Vmm.Paging.Walk.{walk-present, walk-leaf, translate-identity}

-- The run halts only when the segment is used up.
abbrev pub IsExhausted : Vmm → Type 0
IsExhausted t = t.segment_usable ≡ 0

module _ (pml4 base limit : ℕ) where
  -- From `s` the tables have grown to `s'`, where the walk to `v` passes table `t` at level `l`,
  -- however they grow on.
  record Reached (v : ℕ) (g : Plan) (s : Vmm) (l t : ℕ) (s' : Vmm) : Type 0 where
    ext : Extends pml4 base limit g s s'
    table : IsTable pml4 base s'.placement t
    level : ext.plan.level t ≡ l
    covers : ext.plan.prefix t ≡ upper (suc l) v
    leads :
        (g' : Plan) (u : Vmm)
        → Grown pml4 base limit ext.plan s' g' u
        → translate u.mem pml4 v ≡ walk l u.mem t v

  -- Afterwards `v` is mapped to itself.
  abbrev pub IsMapped : ℕ → Plan → Vmm → Unit {0} → Vmm → Type 0
  IsMapped v g s _ u = Extends pml4 base limit g s u × (translate u.mem pml4 v ≡ some v)

  module _ (map_new : ℕ → Cmd Vmm (Unit {0})) (n flags v : ℕ) (fits : flags < 128)
      (odd : flags % 2 ≡ 1) (low : v < 2 ^ 48)
      (nested : (page : ℕ) (g : Plan) (t : Vmm)
        → t.segment_usable < n
        → page < 2 ^ 48
        → Paged pml4 base limit g t
        → Ensures (λ _ u. Extends pml4 base limit g t u) IsExhausted (map_new page t)) where
    -- Afterwards the entry is present.
    abbrev Ensured : Plan → Vmm → ℕ → ℕ → Unit {0} → Vmm → Type 0
    Ensured g s table i _ t = (x : Extends pml4 base limit g s t) × (entry t.mem table i % 2 ≡ 1)

    linked :
        (g : Plan) (s : Vmm) (table i l : ℕ)
        → Paged pml4 base limit g s
        → s.segment_usable ≤ n
        → IsTable pml4 base s.placement table
        → g.level table ≡ suc l
        → i < 512
        → entry s.mem table i % 2 ≡ 0
        → s.segment_usable ≢ 0
        → Ensures (Ensured g s table i) IsExhausted (map_new s.placement (link s table i flags))
    linked g s table i l p h is at hi free more =
        let grown = link-Grown pml4 base limit flags fits odd p table i l is at hi free more in
        let present = link-present pml4 base limit flags fits odd p table i l is at hi free more in
        let still = link-IsTable pml4 base limit flags fits odd p table i l is at hi free more in
        Outcome.weaken
          (nested s.placement (link_plan g s.placement l (g.prefix table * 512 + i))
            (link s table i flags) (omega arith) (omega (arith, p))
            (link-Paged pml4 base limit flags fits odd p table i l is at hi free more))
          (λ _ u x. (extends_trans grown x, rw (x.grown.kept table i still hi present) present))
          (λ u k. k)

    ensure_table-Ensured :
        (g : Plan) (s : Vmm) (table i l : ℕ)
        → Paged pml4 base limit g s
        → s.segment_usable ≤ n
        → IsTable pml4 base s.placement table
        → g.level table ≡ suc l
        → i < 512
        → Ensures (Ensured g s table i) IsExhausted (ensure_table map_new table i flags s)
    unfolding ensure_table
    ensure_table-Ensured g s table i l p h is at hi =
        elim (Bool-cases (is_present (entry s.mem table i))) [
          | inl there ↦ rw there (returns (extends_refl p, is_present_iff _ there))
          | inr missing ↦ rw missing (elim (Bool-cases (s.segment_usable == 0)) [
            | inl empty ↦
                rw empty (Outcome.bind (log-halts _ s refl (λ m t. ground arith)) λ _ _ q. absurd q)
            | inr more ↦
                rw more
                  (linked g s table i l p h is at hi (not-is_present _ missing) (ground arith))
          ])
        ]

    -- One level down.
    descend :
        (g : Plan) (s t : Vmm) (table i l : ℕ)
        → i ≡ slot (suc l) v
        → s.segment_usable ≤ n
        → Reached v g s (suc l) table t
        → Ensures
            (λ _ u. Reached v g s l (bit_and (entry u.mem table i) addr_mask) u)
            IsExhausted
            (ensure_table map_new table i flags t)
    descend g s t table i l e h r =
        Outcome.weaken
          (ensure_table-Ensured r.ext.plan t table i l r.ext.paged
            (omega (arith, r.ext.grown.spent)) r.table r.level (omega arith))
          (λ _ u (x, pr). step u x pr) (λ u k. k)
      where
        step :
            (u : Vmm) (x : Extends pml4 base limit r.ext.plan t u)
            → entry u.mem table i % 2 ≡ 1
            → Reached v g s l (bit_and (entry u.mem table i) addr_mask) u
        step u x pr =
            let is = IsTable-mono pml4 base table x.grown.higher r.table in
            let kept = x.grown.planned table r.table in
            let below = x.paged.inner table i l is (omega arith) (kept.0 ∙ r.level) pr in
            rw mask-frame (record {
              ext = extends_trans r.ext.grown x;
              table = inr below.0;
              level = below.1;
              covers = omega (arith, below, kept, r.covers);
              leads = λ g' w later.
                  r.leads g' w (Grown-trans x.grown later)
                  ∙ walk-present l w.mem table v (entry u.mem table i)
                      (ap (entry w.mem table) (sym e) ∙ later.kept table i is (omega arith) pr) pr
                      below.3;
            })

    finish :
        (g : Plan) (s t u : Vmm) (table : ℕ)
        → (r : Reached v g s 0 table t) → (x : Extends pml4 base limit r.ext.plan t u)
        → entry u.mem table (slot 0 v) % 2 ≡ 1
        → IsMapped v g s tt u
    finish g s t u table r x pr =
        let there =
          r.leads x.plan u x.grown
          ∙ walk-leaf u.mem table v (entry u.mem table (slot 0 v)) refl pr in
        (extends_trans r.ext.grown x, there ∙ ap some (translate-identity x.paged v _ low there))

    map_leaf-IsMapped :
        (g : Plan) (s t : Vmm) (table i : ℕ)
        → i ≡ slot 0 v
        → Reached v g s 0 table t
        → Ensures (IsMapped v g s) IsExhausted (map_leaf table i v flags t)
    unfolding map_leaf
    map_leaf-IsMapped g s t table i e r = elim (Bool-cases (is_present (entry t.mem table i))) [
      | inl there ↦ rw there (
          returns (
            finish g s t t table r (extends_refl r.ext.paged)
              (ap (λ j. entry t.mem table j % 2) (sym e) ∙ is_present_iff _ there)))
      | inr missing ↦ rw missing (returns (write (not-is_present _ missing)))
    ]
      where
        write : entry t.mem table i % 2 ≡ 0 → IsMapped v g s tt (with_leaf t table i v flags)
        write free =
            let covers : r.ext.plan.prefix table * 512 + i ≡ v / 4096 = omega (arith, r.covers) in
            let p = r.ext.paged in
            let written =
              leaf_self pml4 base limit flags v fits odd low p table i r.table r.level (omega arith)
                covers free in
            finish g s t (with_leaf t table i v flags) table r
              (record {
                plan = r.ext.plan;
                paged =
                    leaf-Paged pml4 base limit flags v fits odd low p table i r.table r.level
                      (omega arith) covers free;
                grown =
                    leaf-Grown pml4 base limit flags v fits odd low p table i r.table r.level
                      (omega arith) covers free;
              })
              (ap (λ j. entry (with_leaf t table i v flags).mem table j % 2) (sym e)
                ∙ rw written (omega arith))

    start : (g : Plan) (s : Vmm) → Paged pml4 base limit g s → Reached v g s 3 pml4 s
    start g s p = record {
      ext = extends_refl p;
      table = inl refl;
      level = p.root.0;
      covers = p.root.1 ∙ omega arith;
      leads = λ g' u later. refl;
    }

    pub map_through-IsMapped :
        (g : Plan) (s : Vmm)
        → Paged pml4 base limit g s
        → s.segment_usable ≤ n
        → Ensures (IsMapped v g s) IsExhausted (map_through pml4 map_new v flags s)
    unfolding map_through
    map_through-IsMapped g s p h =
        let idx = index-slot v in
        Outcome.bind (descend g s s pml4 (index 3 v) 2 idx.0 h (start g s p)) λ _ t₁ r₁.
          Outcome.bind (descend g s t₁ _ (index 2 v) 1 idx.1 h r₁) λ _ t₂ r₂.
            Outcome.bind (descend g s t₂ _ (index 1 v) 0 idx.2 h r₂)
              λ _ t₃ r₃. map_leaf-IsMapped g s t₃ _ (index 0 v) idx.3 r₃
