-- ===== src/Loader/Segments.antt =====
-- The segments of the kernel that gnu-efi/bootloader/main.c loads, all of them.
use kess_os_paranoid_edition.Base.{
  ℕ, zero, suc, ◌+◌, ◌*◌, ◌≤◌, ◌<◌, ◌≡◌, ◌≢◌, ◌∙◌, refl, sym, inl, inr, arith, Bool-cases, ◌==◌,
}
use mathlib.Core.Path.{subst}
use kess_os_paranoid_edition.Memory.{Memory, load32}
use kess_os_paranoid_edition.Outcome.{Outcome, done, Cmd, and_then}
use kess_os_paranoid_edition.Loader.Firmware.{World, Uefi}
use kess_os_paranoid_edition.Loader.Load.{load_segment, load_segments}
use kess_os_paranoid_edition.Loader.Segment.{
  Agrees, IsLoad, p_offset, p_paddr, p_filesz, Outside, IsFile, Fits, IsLoaded, loaded,
  load_segment-IsLoaded, load_segment-skips,
}

module _ {F : Type 0} (uefi : Uefi F) (kernel : ℕ) (file : IsFile uefi kernel) where
  open file use {content}

  -- The program headers of `m` at `table`, `n` entries of `ent_size` bytes: the segments fit, and
  -- the pages of each are apart from the table and from those of the others.
  module _ (m : Memory) (table ent_size n : ℕ) where
    abbrev pub phdr_at : ℕ → ℕ
    phdr_at i = table + i * ent_size

    pub record IsLoadable : Type 0 where
      pub entry_size : 56 ≤ ent_size
      pub fits : (i : ℕ) → i < n → IsLoad m (phdr_at i) → Fits uefi kernel file m (phdr_at i)
      pub apart_table :
          (i q : ℕ)
          → i < n
          → IsLoad m (phdr_at i)
          → table ≤ q
          → q < table + n * ent_size
          → Outside m (phdr_at i) q
      pub apart :
          (i j k : ℕ)
          → i < n
          → j < n
          → i ≢ j
          → IsLoad m (phdr_at i)
          → IsLoad m (phdr_at j)
          → k < p_filesz m (phdr_at i)
          → Outside m (phdr_at j) (p_paddr m (phdr_at i) + k)

    -- The first `so_far` segments are in memory, and the table is what it was.
    pub record HasSegments (so_far : ℕ) (v : World F) : Type 0 where
      pub contents :
          (i k : ℕ)
          → i < so_far
          → IsLoad m (phdr_at i)
          → k < p_filesz m (phdr_at i)
          → v.mem (p_paddr m (phdr_at i) + k) ≡ content (p_offset m (phdr_at i) + k)
      pub table_kept : Agrees v.mem m table (n * ent_size)

    pub data AllLoaded : Outcome (World F) (Unit {0}) → Type 0 where
      all_loaded : {v : World F} → HasSegments n v → AllLoaded (done tt v)

    module _ (ok : IsLoadable) where
      entry_within : (i : ℕ) → i < n → i * ent_size + 56 ≤ n * ent_size
      entry_within i h = let size = ok.entry_size in grind arith

      entry-Agrees :
          (i : ℕ) (v : World F)
          → i < n
          → Agrees v.mem m table (n * ent_size)
          → Agrees v.mem m (phdr_at i) 56
      entry-Agrees i v h same q a b =
          let within = entry_within i h in same q (omega arith) (omega arith)

      data HasNext (i : ℕ) : Outcome (World F) (Unit {0}) → Type 0 where
        has_next : {u : World F} → HasSegments (suc i) u → HasNext i (done tt u)

      module _ (i : ℕ) (v : World F) (h : i < n) (have : HasSegments i v) where
        same_entry : Agrees v.mem m (phdr_at i) 56
        same_entry = entry-Agrees i v h have.table_kept

        apart_entry :
            IsLoad m (phdr_at i)
            → (q : ℕ) → phdr_at i ≤ q
            → q < phdr_at i + 56
            → Outside m (phdr_at i) q
        apart_entry load q a b =
            let within = entry_within i h in ok.apart_table i q h load (omega arith) (omega arith)

        after_load :
            (load : IsLoad m (phdr_at i)) {o : Outcome (World F) (Unit {0})}
            → IsLoaded uefi kernel file m
                (phdr_at i)
                (ok.fits i h load)
                v
                same_entry
                (apart_entry load)
                o
            → HasNext i o
        after_load load (loaded {v = u} kept here) = has_next {u = u} record {
          contents = λ j k less is small. elim (Bool-cases (j == i)) [
            | inl same ↦
                let e : j ≡ i = ground arith in
                subst
                  (λ t.
                    k < p_filesz m (phdr_at t)
                    → u.mem (p_paddr m (phdr_at t) + k) ≡ content (p_offset m (phdr_at t) + k))
                  (sym e) (here k) small
            | inr other ↦
                let before : j < i = ground arith in
                kept _ (ok.apart j i k (omega arith) h (omega arith) is load small)
                ∙ have.contents j k before is small
          ];
          table_kept = λ q a b. kept q (ok.apart_table i q h load a b) ∙ have.table_kept q a b;
        }

        after_skip : load32 m (phdr_at i) ≢ 1 → HasSegments (suc i) v
        after_skip skip = record {
          contents = λ j k less is small. elim (Bool-cases (j == i)) [
            | inl same ↦
                let e : j ≡ i = ground arith in
                absurd (skip (subst (λ t. IsLoad m (phdr_at t)) e is))
            | inr other ↦ have.contents j k (ground arith) is small
          ];
          table_kept = have.table_kept;
        }

        load_segment-HasNext : HasNext i (load_segment uefi kernel (phdr_at i) v)
        load_segment-HasNext = elim (Bool-cases (load32 m (phdr_at i) == 1)) [
          | inl is ↦
              let load : IsLoad m (phdr_at i) = ground arith in
              after_load load (
                load_segment-IsLoaded uefi kernel file m (phdr_at i) (ok.fits i h load) v same_entry
                  (apart_entry load) load)
          | inr is_not ↦
              let skip : load32 m (phdr_at i) ≢ 1 = λ e. ground arith in
              rw (load_segment-skips uefi kernel file m (phdr_at i) v same_entry skip)
                (has_next (after_skip skip))
        ]

      onwards :
          (i : ℕ) (o : Outcome (World F) (Unit {0})) (k : Cmd (World F) (Unit {0}))
          → HasNext i o
          → ((u : World F) → HasSegments (suc i) u → AllLoaded (k u))
          → AllLoaded (and_then o (λ _. k))
      onwards i o k (has_next h) rest = rest _ h

      load_segments-AllLoaded :
          (left i phdr : ℕ) (v : World F)
          → phdr ≡ phdr_at i
          → i + left ≡ n
          → HasSegments i v
          → AllLoaded (load_segments uefi kernel ent_size left phdr v)
      unfolding load_segments
      load_segments-AllLoaded zero i phdr v e total have =
          let all : i ≡ n = omega arith in all_loaded (subst (λ t. HasSegments t v) all have)
      load_segments-AllLoaded (suc left) i phdr v e total have =
          onwards i (load_segment uefi kernel phdr v)
            (load_segments uefi kernel ent_size left (phdr + ent_size))
            (subst (λ t. HasNext i (load_segment uefi kernel t v)) (sym e)
              (load_segment-HasNext i v (omega arith) have))
            λ u have'.
              load_segments-AllLoaded left (suc i) (phdr + ent_size) u (grind arith) (omega arith)
                have'

  -- Where Read gives the bytes of the file at the position, SetPosition moves it and AllocatePages
  -- leaves other memory alone, for program headers of at least 56 bytes whose PT_LOAD segments lie
  -- in the file, need no more memory than an int of pages holds, and have pages apart from the
  -- headers and from the bytes of each other, the loop over the headers returns with the bytes of
  -- every PT_LOAD segment at its physical address and the headers as they were.
  pub load_segments_lem :
      (table ent_size n : ℕ) (w : World F)
      → IsLoadable w.mem table ent_size n
      → AllLoaded w.mem table ent_size n (load_segments uefi kernel ent_size n table w)
  load_segments_lem table ent_size n w ok =
      load_segments-AllLoaded w.mem table ent_size n ok n 0 table w (omega arith) (omega arith)
        record { contents = λ i k h. absurd (omega arith); table_kept = λ q a b. refl }
