-- ===== src/Vmm/Init.antt =====
-- `vmm_init` of kernel/src/arch/memory/impl/vmm.c as a whole.
use kess_os_paranoid_edition.Base.{
  ℕ, ◌+◌, ◌*◌, ◌%◌, ◌^◌, ◌≤◌, ◌<◌, ◌≡◌, ◌⊎◌, inl, inr, refl, sym, ap, ◌∙◌, arith, ◌==◌, some, false,
  true, u32,
}
use mathlib.Core.Path.{ap₂, subst}
use kess_os_paranoid_edition.Memory.{Memory, memzero}
use kess_os_paranoid_edition.Outcome
use kess_os_paranoid_edition.Outcome.{
  Outcome, Cmd, and_then, done, Ensures, returns, halts, ◌>>◌, ◌>>=◌,
}
use kess_os_paranoid_edition.MemoryMap.{MemDesc, MemInfo, get_mmap_entries}
use kess_os_paranoid_edition.Vmm.{
  Vmm, entry, identity_pages, identity_map, vmm_init, log, paged_log, mapped_end, is_drawable,
  redrawn, load_pml4,
}
use kess_os_paranoid_edition.Vmm.Paging.{translate, Plan, Paged, IsTable}
use kess_os_paranoid_edition.Vmm.Paging.Entry.{entry-memzero_self}
use kess_os_paranoid_edition.Vmm.Paging.Reach.{IsExhausted}
use kess_os_paranoid_edition.Screen.{Framebuffer, Font}
use kess_os_paranoid_edition.Screen.Room.{Agrees, Agrees-trans, IsScreen}
use kess_os_paranoid_edition.Kernel.Terminal.{Terminal}
use kess_os_paranoid_edition.Kernel.Drawing.{IsReady, after_log, last_log}
use kess_os_paranoid_edition.Kernel.Line.{after_base}
use kess_os_paranoid_edition.Vmm.Apart.{IsApart, drawn-Paged, drawn-translate}
use kess_os_paranoid_edition.Vmm.MapApart.{IsMapApart, biggest_loop-Agrees}
use kess_os_paranoid_edition.Vmm.Total.{identity_map-Spends}
use kess_os_paranoid_edition.Log.{message, info as info_status}
use kess_os_paranoid_edition.Vmm.Segment.{chosen, set_alloc_base_lem}
use kess_os_paranoid_edition.Vmm.Map.{identity_map-IsMapped}

-- The plan of a PML4 with no tables below it.
abbrev pub root_plan : Plan
root_plan = record { level = λ t. 3; prefix = λ t. 0 }

-- A zeroed PML4 is in shape.
pub zeroed-Paged :
    (pml4 limit : ℕ) (m : Memory) (s : Vmm)
    → s.mem ≡ memzero pml4 4096 m
    → pml4 % 4096 ≡ 0
    → s.placement % 4096 ≡ 0
    → s.placement + 4096 * s.segment_usable ≡ limit
    → limit ≤ 2 ^ 48
    → (pml4 + 4096 ≤ s.placement) ⊎ (limit ≤ pml4)
    → Paged pml4 s.placement limit root_plan s
zeroed-Paged pml4 limit m s zeroed hp ha e low apart = record {
  aligned = (ha, ha, hp);
  bounds = (omega arith, e, low);
  apart = apart;
  root = (refl, refl);
  inner = λ t i l ht hi lv pr. absurd (empty t i ht hi pr);
  leaf = λ t i ht hi lv pr. absurd (empty t i ht hi pr);
}
  where
    empty :
        (t i : ℕ) → IsTable pml4 s.placement s.placement t → i < 512 → entry s.mem t i % 2 ≡ 1 → ⊥
    empty t i (inl is) hi pr =
        omega (arith, entry-memzero_self m pml4 i hi, ap₂ (λ a x. entry a x i % 2) zeroed is)
    empty t i (inr is) hi pr = omega arith

-- What `vmm_init` leaves: the first 6 GiB map to themselves, the tables are in shape, and CR3
-- holds the PML4.
pub record IsInitialised (pml4 base limit : ℕ) (u : Vmm) : Type 0 where
  pub plan : Plan
  pub paged : Paged pml4 base limit plan u
  pub identity : (v : ℕ) → v < 0x180000000 → translate u.mem pml4 v ≡ some v
  pub loaded : u.cr3 ≡ some pml4

-- Drawing apart from the tables keeps all of it.
pub IsInitialised-drawn :
    (fb : Framebuffer) {pml4 base limit : ℕ} {u : Vmm}
    → IsApart fb pml4 base limit
    → IsInitialised pml4 base limit u
    → (m : Memory) (t : Terminal) → Agrees fb u.mem m
    → IsInitialised pml4 base limit (record u { mem = m; terminal = t })
IsInitialised-drawn fb {u} apart x m t same = record {
  plan = x.plan;
  paged = drawn-Paged apart x.plan u x.paged m same t;
  identity = λ v h. drawn-translate apart x.plan u x.paged m same t v v (x.identity v h);
  loaded = x.loaded;
}

-- The frame buffer and the font lie in the first 6 GiB.
pub record IsReached (fb : Framebuffer) (face : Font) : Type 0 where
  pub screen : fb.base_addr + 4 * (fb.height * fb.ppsl) ≤ mapped_end
  pub glyphs : face.glyph_buffer + 256 * face.chsize + 16 ≤ mapped_end

IsReached-is_drawable :
    (fb : Framebuffer) (face : Font) → IsReached fb face → is_drawable fb face ≡ true
unfolding is_drawable
IsReached-is_drawable fb face r = ground (arith, r.screen, r.glyphs)

module _ (fb : Framebuffer) (screen : IsScreen fb) (face : Font) where
  -- What `vmm_init` leaves, with lines left below the cursor.
  abbrev pub IsInitialisedWith : ℕ → ℕ → ℕ → ℕ → Unit {0} → Vmm → Type 0
  IsInitialisedWith lines pml4 base limit _ u =
      IsInitialised pml4 base limit u × IsReady fb face lines 0 u.terminal

  module _ (pml4 base limit lines : ℕ) (apart : IsApart fb pml4 base limit)
      (reached : IsReached fb face) where
    abbrev Ends : Outcome Vmm (Unit {0}) → Type 0
    Ends = Ensures (IsInitialisedWith lines pml4 base limit) IsExhausted

    -- The end of `vmm_init`, behind the loop.
    closing : Cmd Vmm (Unit {0})
    closing = do
      log (message "Finished mapping..\n" info_status)
      log (message "Loading PML4 into CR3 register..\n" info_status)
      load_pml4 pml4
      paged_log (message "Finished setting up VMM.\n" info_status)

    finished :
        (g : Plan) (u : Vmm)
        → Paged pml4 base limit g u
        → ((v : ℕ) → v < 0x180000000 → translate u.mem pml4 v ≡ some v)
        → IsReady fb face (3 + lines) 0 u.terminal
        → Ends (closing u)
    unfolding closing load_pml4
    finished g u p identity ready =
        after_log fb screen face (message "Finished mapping..\n" info_status) (3 + lines)
          (2 + lines) 0 u.mem u.terminal refl refl (omega arith) ready Ends u (redrawn u) _
          λ m1 t1 same1 ready1.
            after_log fb screen face (message "Loading PML4 into CR3 register..\n" info_status)
              (2 + lines) (1 + lines) 0 m1 t1 refl refl (omega arith) ready1 Ends (redrawn u m1 t1)
              (redrawn u) _
              λ m2 t2 same2 ready2.
                let drawable : is_drawable t2.canvas.lfb t2.canvas.font ≡ true =
                  rw (ready2.room.lfb, ready2.room.font) (IsReached-is_drawable fb face reached) in
                rw drawable (
                  last_log fb screen face (message "Finished setting up VMM.\n" info_status)
                    (1 + lines) lines 0 m2 t2 refl refl (omega arith) ready2 Ends
                    (record u { mem = m2; terminal = t2; cr3 = some pml4 })
                    (λ m t. record u { mem = m; terminal = t; cr3 = some pml4 })
                    λ m3 t3 same3 ready3. returns (
                      IsInitialised-drawn fb apart loaded m3 t3
                          (Agrees-trans fb same1 (Agrees-trans fb same2 same3)),
                      ready3,
                    ))
      where
        loaded : IsInitialised pml4 base limit (record u { cr3 = some pml4 })
        loaded = record {
          plan = g;
          paged = record {
            aligned = p.aligned;
            bounds = p.bounds;
            apart = p.apart;
            root = p.root;
            inner = p.inner;
            leaf = p.leaf;
          };
          identity = identity;
          loaded = refl;
        }

    -- The loop of `vmm_init` and its end.
    mapping :
        (u : Vmm)
        → Paged pml4 base limit root_plan u
        → IsReady fb face (3 + lines) 0 u.terminal
        → Ends (and_then (identity_map pml4 identity_pages 0 u) (λ _. closing))
    mapping u p ready =
        Outcome.bind
          (Outcome.both
            (identity_map-IsMapped pml4 base limit identity_pages 0 0x180000000 root_plan u
              (omega arith) (omega arith) (omega arith) p)
            (identity_map-Spends pml4 identity_pages 0 u))
          λ _ v ((x, m), (_, kept)).
            finished x.plan v x.paged (λ a h. m a (omega arith) h)
              (subst (IsReady fb face (3 + lines) 0) (sym kept) ready)

  -- The state behind `set_alloc_base`, with text drawn.
  abbrev based : MemDesc → Vmm → Memory → Terminal → Vmm
  based d s m t = record s {
    biggest_segment = d;
    placement = d.phys_addr;
    segment_usable = d.n_pages;
    mem = m;
    terminal = t;
  }

  -- Where the segment chosen from the memory map is page-aligned, below 2 ^ 48 and apart from the
  -- PML4, and the frame buffer is apart from both and from the map, ends with the glyphs of the
  -- font within the first 6 GiB and has room for the seven lines that are logged, vmm_init neither
  -- faults nor runs out of fuel: it returns with the first 6 GiB translated to themselves, the
  -- tables in shape, CR3 loaded and the other lines left below the cursor, or halts with the
  -- segment used up.
  pub vmm_init-IsInitialised :
      (pml4 n lines : ℕ) (info : MemInfo) (s : Vmm)
      → get_mmap_entries info ≡ some n
      → pml4 % 4096 ≡ 0
      → (chosen info n s).phys_addr % 4096 ≡ 0
      → (chosen info n s).phys_addr + 4096 * (chosen info n s).n_pages ≤ 2 ^ 48
      → (pml4 + 4096 ≤ (chosen info n s).phys_addr)
        ⊎ ((chosen info n s).phys_addr + 4096 * (chosen info n s).n_pages ≤ pml4)
      → IsApart fb pml4
          (chosen info n s).phys_addr
          ((chosen info n s).phys_addr + 4096 * (chosen info n s).n_pages)
      → IsMapApart fb info n
      → IsReached fb face
      → IsReady fb face (7 + lines) 0 s.terminal
      → Ensures
          (IsInitialisedWith lines pml4
            (chosen info n s).phys_addr
            ((chosen info n s).phys_addr + 4096 * (chosen info n s).n_pages))
          IsExhausted
          (vmm_init pml4 info s)
  unfolding vmm_init finished closing
  vmm_init-IsInitialised pml4 n lines info s h hp ha low apart tables map reached ready =
      let b = chosen info n s in
      let limit = b.phys_addr + 4096 * b.n_pages in
      let Goal = λ (o : Outcome Vmm (Unit {0})).
        Ensures (IsInitialisedWith lines pml4 b.phys_addr limit) IsExhausted o in
      let differs : (b.phys_addr == 0xdeadbeef) ≡ false = ground arith in
      after_log fb screen face (message "Setting allocation base..\n" info_status) (7 + lines)
        (6 + lines) 0 s.mem s.terminal refl refl (omega arith) ready Goal s (redrawn s) _
        λ m1 t1 same1 ready1.
          let base =
            set_alloc_base_lem info n (redrawn s m1 t1) h
            ∙ ap (λ d. done tt (based d s m1 t1))
                (biggest_loop-Agrees fb info n map s.mem m1 same1 n 0 _ (omega arith)) in
          let s1 = based b s in
          rw (base, differs)
            (after_base fb screen face Goal (u32 b.phys_addr) (6 + lines) (5 + lines) m1 t1
              (s1 m1 t1) s1 _ (omega arith) (omega arith) ready1
              λ m2 t2 same2 ready2.
                after_log fb screen face (message "Zeroing PML4..\n" info_status) (5 + lines)
                  (4 + lines) 0 m2 t2 refl refl (omega arith) ready2 Goal (s1 m2 t2) s1 _
                  λ m3 t3 same3 ready3.
                    let zeroed = memzero pml4 4096 m3 in
                    after_log fb screen face
                      (message "Identity mapping some address space for KessKernel..\n" info_status)
                      (4 + lines) (3 + lines) 0 zeroed t3 refl refl (omega arith) ready3 Goal
                      (s1 zeroed t3) s1 _
                      λ m4 t4 same4 ready4.
                        mapping pml4 b.phys_addr limit lines tables reached (s1 m4 t4)
                          (drawn-Paged tables root_plan (s1 zeroed t3)
                            (zeroed-Paged pml4 limit m3 (s1 zeroed t3) refl hp ha refl low apart) m4
                            same4 t4)
                          ready4)
