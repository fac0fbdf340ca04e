-- ===== src/Loader/Segment.antt =====
-- One segment of the kernel that gnu-efi/bootloader/main.c loads.
use kess_os_paranoid_edition.Base.{
  ℕ, ◌+◌, ◌-◌, ◌*◌, ◌^◌, ◌≤◌, ◌<◌, ◌≡◌, ◌≢◌, ◌⊎◌, ◌∙◌, refl, ap, arith, true, false, ◌==◌,
}
use kess_os_paranoid_edition.Memory.{Memory, load16, load32, load64}
use kess_os_paranoid_edition.Outcome.{Outcome, done}
use kess_os_paranoid_edition.Loader.{segment_pages}
use kess_os_paranoid_edition.Loader.Firmware.{World, Uefi}
use kess_os_paranoid_edition.Loader.Load.{sign_extended, load_segment}

-- Two memories have the same `n` bytes at `p`.
abbrev pub Agrees : Memory → Memory → ℕ → ℕ → Type 0
Agrees m m' p n = (q : ℕ) → p ≤ q → q < p + n → m q ≡ m' q

load32-Agrees : (m m' : Memory) (p : ℕ) → Agrees m m' p 4 → load32 m p ≡ load32 m' p
unfolding load32 load16
load32-Agrees m m' p h = ground (
  arith,
  h p (omega arith) (omega arith),
  h (p + 1) (omega arith) (omega arith),
  h (p + 2) (omega arith) (omega arith),
  h (p + 2 + 1) (omega arith) (omega arith),
)

load64-Agrees : (m m' : Memory) (p : ℕ) → Agrees m m' p 8 → load64 m p ≡ load64 m' p
unfolding load64
load64-Agrees m m' p h = omega (
  arith,
  load32-Agrees m m' p (λ q a b. h q a (omega arith)),
  load32-Agrees m m' (p + 4) (λ q a b. h q (omega arith) (omega arith)),
)

-- An Elf64_Phdr in memory.
module _ (m : Memory) (phdr : ℕ) where
  abbrev pub IsLoad : Type 0
  IsLoad = load32 m phdr ≡ 1

  abbrev pub p_offset : ℕ
  p_offset = load64 m (phdr + 8)

  abbrev pub p_paddr : ℕ
  p_paddr = load64 m (phdr + 24)

  abbrev pub p_filesz : ℕ
  p_filesz = load64 m (phdr + 32)

  abbrev pub p_memsz : ℕ
  p_memsz = load64 m (phdr + 40)

  abbrev pub pages : ℕ
  pages = segment_pages p_memsz

  -- `q` is in none of its pages.
  abbrev pub Outside : ℕ → Type 0
  Outside q = (q < p_paddr) ⊎ (p_paddr + 4096 * pages ≤ q)

-- What the loader relies on: the open file has `size` bytes; `Read` at a position puts those behind
-- it into the buffer, as far as the file goes, and writes nothing else; `SetPosition` moves there.
-- `AllocatePages` at an address leaves the address as it is, and memory outside of the pages.
pub record IsFile {F : Type 0} (uefi : Uefi F) (file : ℕ) : Type 0 where
  pub content : ℕ → ℕ
  pub size : ℕ
  pub position : F → ℕ
  pub set_position_mem : (at : ℕ) (w : World F) → (uefi.set_position file at w).mem ≡ w.mem
  pub set_position_at :
      (at : ℕ) (w : World F) → position (uefi.set_position file at w).firmware ≡ at
  pub read_inside :
      (n buffer : ℕ) (w : World F) (k : ℕ)
      → k < n
      → position w.firmware + k < size
      → (uefi.read file n buffer w).mem (buffer + k) ≡ content (position w.firmware + k)
  pub read_outside :
      (n buffer : ℕ) (w : World F) (q : ℕ)
      → (q < buffer) ⊎ (buffer + n ≤ q)
      → (uefi.read file n buffer w).mem q ≡ w.mem q
  pub allocate_at : (n addr : ℕ) (w : World F) → (uefi.allocate_pages n addr w).0 ≡ addr
  pub allocate_mem :
      (n addr : ℕ) (w : World F) (q : ℕ)
      → (q < addr) ⊎ (addr + 4096 * n ≤ q)
      → (uefi.allocate_pages n addr w).1.mem q ≡ w.mem q

module _ {F : Type 0} (uefi : Uefi F) (kernel : ℕ) (file : IsFile uefi kernel) where
  open file use {
    content, size, position, set_position_mem, set_position_at, read_inside, read_outside,
    allocate_at, allocate_mem,
  }

  -- A segment that fits: in the file, in its pages, and in an `int` of pages.
  pub record Fits (m : Memory) (phdr : ℕ) : Type 0 where
    pub in_file : p_offset m phdr + p_filesz m phdr ≤ size
    pub in_memory : p_filesz m phdr ≤ p_memsz m phdr
    pub in_int : p_memsz m phdr ≤ 2 ^ 43 - 4096

  pages_bounds :
      (m : Memory) (phdr : ℕ)
      → Fits m phdr
      → (p_filesz m phdr ≤ 4096 * pages m phdr) × (sign_extended (pages m phdr) ≡ pages m phdr)
  unfolding segment_pages
  pages_bounds m phdr fit =
      let a = fit.in_memory in let b = fit.in_int in (omega arith, ground arith)

  -- One segment, from a memory whose program header is that of `m`.
  module _ (m : Memory) (phdr : ℕ) (fit : Fits m phdr) (w : World F)
      (agrees : Agrees w.mem m phdr 56)
      (apart : (q : ℕ) → phdr ≤ q → q < phdr + 56 → Outside m phdr q) where
    pub data IsLoaded : Outcome (World F) (Unit {0}) → Type 0 where
      loaded :
          {v : World F}
          → ((q : ℕ) → Outside m phdr q → v.mem q ≡ w.mem q)
          → ((k : ℕ)
              → k < p_filesz m phdr
              → v.mem (p_paddr m phdr + k) ≡ content (p_offset m phdr + k))
          → IsLoaded (done tt v)

    field64 :
        (v : World F) (k : ℕ)
        → Agrees v.mem m phdr 56
        → k ≤ 48
        → load64 v.mem (phdr + k) ≡ load64 m (phdr + k)
    field64 v k same low =
        load64-Agrees v.mem m (phdr + k) λ q a b. same q (omega arith) (omega arith)

    -- The state once the pages are allocated.
    abbrev allocated : World F
    allocated = (uefi.allocate_pages (pages m phdr) (p_paddr m phdr) w).1

    allocated-Agrees : Agrees allocated.mem m phdr 56
    allocated-Agrees q a b =
        allocate_mem (pages m phdr) (p_paddr m phdr) w q (apart q a b) ∙ agrees q a b

    abbrev positioned : World F
    positioned = uefi.set_position kernel (p_offset m phdr) allocated

    positioned-Agrees : Agrees positioned.mem m phdr 56
    positioned-Agrees q a b =
        ap (λ (t : Memory). t q) (set_position_mem (p_offset m phdr) allocated)
        ∙ allocated-Agrees q a b

    read-IsLoaded :
        IsLoaded (done tt (uefi.read kernel (p_filesz m phdr) (p_paddr m phdr) positioned))
    read-IsLoaded =
        let (enough, _) = pages_bounds m phdr fit in
        let at = set_position_at (p_offset m phdr) allocated in
        let within = fit.in_file in
        loaded
          (λ q out.
            read_outside (p_filesz m phdr) (p_paddr m phdr) positioned q (ground arith)
            ∙ ap (λ (t : Memory). t q) (set_position_mem (p_offset m phdr) allocated)
            ∙ allocate_mem (pages m phdr) (p_paddr m phdr) w q out)
          (λ k less.
            read_inside (p_filesz m phdr) (p_paddr m phdr) positioned k less (omega arith)
            ∙ ap (λ t. content (t + k)) at)

    pub load_segment-IsLoaded : IsLoad m phdr → IsLoaded (load_segment uefi kernel phdr w)
    unfolding load_segment
    load_segment-IsLoaded load =
        let load' : load32 w.mem phdr == 1 ≡ true =
          ground (arith, load32-Agrees w.mem m phdr (λ q a b. agrees q a (omega arith))) in
        rw
          (
            load',
            field64 w 40 agrees (omega arith),
            (pages_bounds m phdr fit).1,
            field64 w 24 agrees (omega arith),
            allocate_at,
            field64 allocated 8 allocated-Agrees (omega arith),
            field64 positioned 32 positioned-Agrees (omega arith),
          )
          read-IsLoaded

  pub load_segment-skips :
      (m : Memory) (phdr : ℕ) (w : World F)
      → Agrees w.mem m phdr 56
      → load32 m phdr ≢ 1
      → load_segment uefi kernel phdr w ≡ done tt w
  unfolding load_segment
  load_segment-skips m phdr w agrees skip =
      let skip' : load32 w.mem phdr == 1 ≡ false =
        ground (arith, load32-Agrees w.mem m phdr (λ q a b. agrees q a (omega arith))) in
      rw skip' refl
