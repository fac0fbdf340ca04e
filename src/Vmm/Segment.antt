-- ===== src/Vmm/Segment.antt =====
-- `set_alloc_base` of kernel/src/arch/memory/impl/vmm.c: the segment that the allocator takes.
use kess_os_paranoid_edition.Base.{
  ℕ, zero, suc, ◌+◌, ◌%◌, ◌≤◌, ◌<◌, ◌≡◌, ◌⊎◌, inl, inr, refl, sym, ap, ◌∙◌, arith, ◌==◌, ◌&&◌, ltb,
  false, some, Bool-cases,
}
use mathlib.Core.Path.{subst}
use kess_os_paranoid_edition.Memory.{Memory}
use kess_os_paranoid_edition.Outcome.{done}
use kess_os_paranoid_edition.MemoryMap.{
  mmap_usable_memory, MemDesc, load_desc, MemInfo, get_mmap_entries, mmap_iterator_helper,
}
use kess_os_paranoid_edition.Vmm.{Vmm, biggest_loop, set_alloc_base, check_base}

-- The descriptor at an index of the map.
abbrev pub desc : Memory → MemInfo → ℕ → MemDesc
desc m info j = load_desc m (mmap_iterator_helper j info)

-- `b` has at least the pages of each usable descriptor from `i` up to `n`, and is one of these or
-- `start`.
pub record IsLargest (m : Memory) (info : MemInfo) (i n : ℕ) (start b : MemDesc) : Type 0 where
  pub largest :
      (j : ℕ)
      → i ≤ j
      → j < n
      → (desc m info j).type ≡ mmap_usable_memory
      → (desc m info j).n_pages ≤ b.n_pages
  pub grows : start.n_pages ≤ b.n_pages
  pub among :
      (b ≡ start)
      ⊎ ((j : ℕ) × (j < n) × (b ≡ desc m info j) × (b.type ≡ mmap_usable_memory) × (0 < b.n_pages))

module _ (m : Memory) (info : MemInfo) where
  -- The bound from `i` on, from the bound behind it and at `i`.
  from_first :
      (i n k : ℕ)
      → ((desc m info i).type ≡ mmap_usable_memory → (desc m info i).n_pages ≤ k)
      → ((j : ℕ)
          → i + 1 ≤ j
          → j < n
          → (desc m info j).type ≡ mmap_usable_memory
          → (desc m info j).n_pages ≤ k)
      → (j : ℕ) → i ≤ j
      → j < n
      → (desc m info j).type ≡ mmap_usable_memory
      → (desc m info j).n_pages ≤ k
  from_first i n k here behind j h less usable = elim (Bool-cases (j == i)) [
    | inl e ↦ same (ground arith)
    | inr ne ↦ behind j (ground arith) less usable
  ]
    where
      same : j ≡ i → (desc m info j).n_pages ≤ k
      same e =
          subst (λ a. (desc m info a).type ≡ mmap_usable_memory → (desc m info a).n_pages ≤ k)
            (sym e) here usable

  IsLargest-better :
      {i n : ℕ} {start b : MemDesc}
      → i < n
      → start.n_pages < (desc m info i).n_pages
      → (desc m info i).type ≡ mmap_usable_memory
      → IsLargest m info (i + 1) n (desc m info i) b
      → IsLargest m info i n start b
  IsLargest-better {i} {n} {start} {b} less more usable rest = record {
    largest = from_first i n b.n_pages (λ u. rest.grows) rest.largest;
    grows = omega (arith, rest.grows);
    among = elim rest.among [
      | inl e ↦ inr (i, less, e, ap MemDesc.type e ∙ usable, positive)
      | inr found ↦ inr found
    ];
  }
    where
      positive : 0 < b.n_pages
      positive = omega (arith, rest.grows)

  pub biggest_loop-IsLargest :
      (left i n : ℕ) (start : MemDesc)
      → i + left ≡ n
      → IsLargest m info i n start (biggest_loop m info left i start)
  unfolding biggest_loop
  biggest_loop-IsLargest zero i n start e = record {
    largest = λ j h k u. absurd (omega arith);
    grows = omega arith;
    among = inl refl;
  }
  biggest_loop-IsLargest (suc left) i n start e =
      elim (Bool-cases (
        ltb start.n_pages (desc m info i).n_pages
        && ((desc m info i).type == mmap_usable_memory))) [
          | inl better ↦ rw better (
              IsLargest-better (omega arith) (ground arith) (ground arith)
                (biggest_loop-IsLargest left (i + 1) n (desc m info i) (omega arith)))
          | inr worse ↦
              rw worse
                (keep (ground arith) (biggest_loop-IsLargest left (i + 1) n start (omega arith)))
        ]
    where
      keep :
          ((desc m info i).type ≡ mmap_usable_memory → (desc m info i).n_pages ≤ start.n_pages)
          → IsLargest m info (i + 1) n start (biggest_loop m info left (i + 1) start)
          → IsLargest m info i n start (biggest_loop m info left (i + 1) start)
      keep here rest = record {
        largest =
            from_first i n (biggest_loop m info left (i + 1) start).n_pages
              (λ u. omega (arith, here u, rest.grows)) rest.largest;
        grows = rest.grows;
        among = rest.among;
      }

-- What a state has after the allocator's base is set.
pub record IsBased (info : MemInfo) (n : ℕ) (s t : Vmm) : Type 0 where
  pub chosen : IsLargest s.mem info 0 n (record s.biggest_segment { n_pages = 0 }) t.biggest_segment
  pub placement : t.placement ≡ t.biggest_segment.phys_addr
  pub usable : t.segment_usable ≡ t.biggest_segment.n_pages
  pub mem : t.mem ≡ s.mem

-- The descriptor that the allocator takes from a map of `n` entries.
abbrev pub chosen : MemInfo → ℕ → Vmm → MemDesc
chosen info n s = biggest_loop s.mem info n 0 (record s.biggest_segment { n_pages = 0 })

abbrev pub based : MemInfo → ℕ → Vmm → Vmm
based info n s = record s {
  biggest_segment = chosen info n s;
  placement = (chosen info n s).phys_addr;
  segment_usable = (chosen info n s).n_pages;
}

pub set_alloc_base_lem :
    (info : MemInfo) (n : ℕ) (s : Vmm)
    → get_mmap_entries info ≡ some n
    → set_alloc_base info s ≡ done tt (based info n s)
unfolding set_alloc_base
set_alloc_base_lem info n s h = rw (h, set_alloc_base) refl

-- For a map of n descriptors set_alloc_base returns with the allocator on a usable descriptor that
-- has at least the pages of every usable one, or with no pages if no usable one has any.
pub set_alloc_base-IsBased :
    (info : MemInfo) (n : ℕ) (s : Vmm)
    → get_mmap_entries info ≡ some n
    → (t : Vmm) × (set_alloc_base info s ≡ done tt t) × IsBased info n s t
set_alloc_base-IsBased info n s h = (
  based info n s,
  set_alloc_base_lem info n s h,
  record {
    chosen =
        biggest_loop-IsLargest s.mem info n 0 n (record s.biggest_segment { n_pages = 0 })
          (omega arith);
    placement = refl;
    usable = refl;
    mem = refl;
  },
)

-- When every descriptor of the map is page-aligned, and the physical address left in
-- biggestSegment too, the base that set_alloc_base leaves passes the check of vmm_init, whether or
-- not there is usable memory.
pub check_base-passes :
    (info : MemInfo) (n : ℕ) (s : Vmm)
    → get_mmap_entries info ≡ some n
    → ((j : ℕ) → j < n → (desc s.mem info j).phys_addr % 4096 ≡ 0)
    → s.biggest_segment.phys_addr % 4096 ≡ 0
    → (t : Vmm) × (set_alloc_base info s ≡ done tt t) × (check_base t ≡ done tt t)
unfolding check_base
check_base-passes info n s h aligned old =
    let (t, e, b) = set_alloc_base-IsBased info n s h in
    let base : t.biggest_segment.phys_addr % 4096 ≡ 0 = elim b.chosen.among [
      | inl same ↦ ap (λ (d : MemDesc). d.phys_addr % 4096) same ∙ old
      | inr (j, less, same, _, _) ↦ ap (λ (d : MemDesc). d.phys_addr % 4096) same ∙ aligned j less
    ] in
    let differs : (t.placement == 0xdeadbeef) ≡ false = ground (arith, b.placement) in
    (t, e, rw differs refl)
