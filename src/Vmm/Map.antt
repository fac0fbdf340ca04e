-- ===== src/Vmm/Map.antt =====
-- `map_page` and the identity map of `vmm_init`, kernel/src/arch/memory/impl/vmm.c, against the
-- processor's page walk.
use kess_os_paranoid_edition.Base.{
  ℕ, zero, suc, ◌+◌, ◌*◌, ◌%◌, ◌^◌, ◌≤◌, ◌<◌, ◌≡◌, inl, inr, arith, some, Bool-cases, bit_or, u32,
  ltb,
}
use kess_os_paranoid_edition.Outcome
use kess_os_paranoid_edition.Outcome.{Cmd, Ensures, returns, halts}
use kess_os_paranoid_edition.Vmm.{Vmm, map_page, identity_map, bit_present, bit_writable}
use kess_os_paranoid_edition.Vmm.Paging.{translate, Plan, Paged, Extends}
use kess_os_paranoid_edition.Vmm.Paging.Entry.{present_flags}
use kess_os_paranoid_edition.Vmm.Paging.Grow.{extends_refl, extends_trans}
use kess_os_paranoid_edition.Vmm.Paging.Walk.{translate-page, translate-kept}
use kess_os_paranoid_edition.Vmm.Paging.Reach.{IsExhausted, IsMapped, map_through-IsMapped}

module _ (pml4 base limit : ℕ) where
  -- From a state whose tables are in shape, with more fuel than the allocator has pages, map_page
  -- of an address below 2 ^ 48 with flags below 128 returns with the tables in shape, every table
  -- and present entry kept and the address translated to itself by the page walk, or halts with
  -- the segment used up.
  pub map_page-IsMapped :
      (fuel v flags : ℕ) (g : Plan) (s : Vmm)
      → s.segment_usable < fuel
      → v < 2 ^ 48
      → flags < 128
      → Paged pml4 base limit g s
      → Ensures (IsMapped pml4 base limit v g s) IsExhausted (map_page pml4 fuel v flags s)
  unfolding map_page
  map_page-IsMapped zero v flags g s h low fits p = absurd (omega arith)
  map_page-IsMapped (suc fuel) v flags g s h low fits p =
      let (fits', odd) = present_flags flags fits in
      map_through-IsMapped pml4 base limit
        (λ page. map_page pml4 fuel page (bit_or (u32 flags) bit_present)) s.segment_usable
        (bit_or (u32 flags) bit_present) v fits' odd low
        (λ page g' t less below p'.
          Outcome.weaken
            (map_page-IsMapped fuel page (bit_or (u32 flags) bit_present) g' t (omega arith) below
              fits' p')
            (λ _ u m. m.0) (λ u k. k))
        g s p (omega arith)

  -- The pages of a range are mapped to themselves.
  abbrev pub IsMappedRange : ℕ → ℕ → Plan → Vmm → Unit {0} → Vmm → Type 0
  IsMappedRange lo hi g s _ u =
      Extends pml4 base limit g s u × ((v : ℕ) → lo ≤ v → v < hi → translate u.mem pml4 v ≡ some v)

  pub identity_map-IsMapped :
      (left addr hi : ℕ) (g : Plan) (s : Vmm)
      → addr % 4096 ≡ 0
      → addr + 4096 * left ≡ hi
      → hi ≤ 2 ^ 48
      → Paged pml4 base limit g s
      → Ensures (IsMappedRange addr hi g s) IsExhausted (identity_map pml4 left addr s)
  unfolding identity_map
  identity_map-IsMapped zero addr hi g s al e low p =
      returns (extends_refl p, λ v h k. absurd (omega arith))
  identity_map-IsMapped (suc left) addr hi g s al e low p =
      Outcome.bind
        (map_page-IsMapped (s.segment_usable + 1) addr (bit_or bit_writable bit_present) g s
          (omega arith) (omega arith) (omega arith) p)
        λ _ t (x, here).
          Outcome.weaken
            (identity_map-IsMapped left (addr + 4096) hi x.plan t (omega arith) (omega arith) low
              x.paged)
            (λ _ u (y, rest). (extends_trans x.grown y, λ v h k. first x.paged y here rest v h k))
            (λ u k. k)
    where
      first :
          {h : Plan} {t u : Vmm}
          → Paged pml4 base limit h t
          → Extends pml4 base limit h t u
          → translate t.mem pml4 addr ≡ some addr
          → ((v : ℕ) → addr + 4096 ≤ v → v < hi → translate u.mem pml4 v ≡ some v)
          → (v : ℕ) → addr ≤ v
          → v < hi
          → translate u.mem pml4 v ≡ some v
      first q y here rest v h k = elim (Bool-cases (ltb v (addr + 4096))) [
        | inl lt ↦
            translate-kept q v v y.grown (translate-page q addr v (omega arith) (ground arith) here)
        | inr ge ↦ rest v (ground arith) k
      ]
