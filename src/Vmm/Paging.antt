-- ===== src/Vmm/Paging.antt =====
-- What the paging structures of kernel/src/arch/memory/impl/vmm.c mean: the page walk of the
-- processor, and the shape of the tables that the kernel builds.
pub mod Entry
pub mod Link
pub mod Leaf
pub mod Grow
pub mod Walk
pub mod Reach
use kess_os_paranoid_edition.Base.{
  ℕ, zero, suc, ◌+◌, ◌*◌, ◌/◌, ◌%◌, ◌^◌, ◌≤◌, ◌<◌, ◌≡◌, Bool, true, false, Option, none, some, ◌⊎◌,
  ◌||◌, ◌==◌, if◌then◌else◌,
}
use kess_os_paranoid_edition.Memory.{Memory}
use kess_os_paranoid_edition.Vmm.{Vmm, entry}

-- The address field of an entry.
abbrev pub frame : ℕ → ℕ
frame e = e / 2 ^ 12 % 2 ^ 40 * 2 ^ 12

-- The bits of an address above those that a table at a level translates, the lowest nine of
-- which index that table.
abbrev pub upper : ℕ → ℕ → ℕ
upper zero addr = addr / 2 ^ 12
upper (suc level) addr = upper level addr / 2 ^ 9

abbrev pub slot : ℕ → ℕ → ℕ
slot level addr = upper level addr % 2 ^ 9

-- The walk from a table at a level. Bit 0 is the present bit; bit 7 of an upper entry would
-- make it a large page, which the kernel does not use.
unfoldable pub walk : ℕ → Memory → ℕ → ℕ → Option ℕ
walk zero m table v =
    let e = entry m table (slot 0 v) in if e % 2 == 0 then none else some (frame e + v % 2 ^ 12)
walk (suc level) m table v =
    let e = entry m table (slot (suc level) v) in
    let below = walk level m (frame e) v in
    if (e % 2 == 0) || (e / 2 ^ 7 % 2 == 1) then none else below

-- The physical address of a virtual one, below 2 ^ 48, under the PML4 at `root`.
abbrev pub translate : Memory → ℕ → ℕ → Option ℕ
translate m root v = walk 3 m root v

-- For each table its level, and the bits of the addresses that it covers.
pub record Plan : Type 0 where
  pub level : ℕ → ℕ
  pub prefix : ℕ → ℕ

-- A page that the allocator has handed out: it took them upwards from `base` to `placement`.
abbrev pub IsAllocated : ℕ → ℕ → ℕ → Type 0
IsAllocated base placement t = (base ≤ t) × (t + 4096 ≤ placement) × (t % 4096 ≡ 0)

abbrev pub IsTable : ℕ → ℕ → ℕ → ℕ → Type 0
IsTable pml4 base placement t = (t ≡ pml4) ⊎ IsAllocated base placement t

module _ (pml4 base limit : ℕ) where
  -- The tables form a tree, each planned for one place, and its leaves map pages to themselves.
  -- The segment that they are taken from lies below 2 ^ 48 and apart from the PML4.
  pub record Paged (g : Plan) (s : Vmm) : Type 0 where
    pub aligned : (s.placement % 4096 ≡ 0) × (base % 4096 ≡ 0) × (pml4 % 4096 ≡ 0)
    pub bounds :
        (base ≤ s.placement) × (s.placement + 4096 * s.segment_usable ≡ limit) × (limit ≤ 2 ^ 48)
    pub apart : (pml4 + 4096 ≤ base) ⊎ (limit ≤ pml4)
    pub root : (g.level pml4 ≡ 3) × (g.prefix pml4 ≡ 0)
    pub inner :
        (t i l : ℕ)
        → IsTable pml4 base s.placement t
        → i < 512
        → g.level t ≡ suc l
        → entry s.mem t i % 2 ≡ 1
        → IsAllocated base s.placement (frame (entry s.mem t i))
          × (g.level (frame (entry s.mem t i)) ≡ l)
          × (g.prefix (frame (entry s.mem t i)) ≡ g.prefix t * 512 + i)
          × (entry s.mem t i / 2 ^ 7 % 2 ≡ 0)
    pub leaf :
        (t i : ℕ)
        → IsTable pml4 base s.placement t
        → i < 512
        → g.level t ≡ 0
        → entry s.mem t i % 2 ≡ 1
        → frame (entry s.mem t i) ≡ (g.prefix t * 512 + i) * 4096

  -- Tables and present entries are kept.
  pub record Grown (g : Plan) (s : Vmm) (g' : Plan) (s' : Vmm) : Type 0 where
    pub planned :
        (t : ℕ)
        → IsTable pml4 base s.placement t
        → (g'.level t ≡ g.level t) × (g'.prefix t ≡ g.prefix t)
    pub higher : s.placement ≤ s'.placement
    pub spent : s'.segment_usable ≤ s.segment_usable
    pub kept :
        (t i : ℕ)
        → IsTable pml4 base s.placement t
        → i < 512
        → entry s.mem t i % 2 ≡ 1
        → entry s'.mem t i ≡ entry s.mem t i

  -- `s'` has a plan that extends `g`.
  pub record Extends (g : Plan) (s s' : Vmm) : Type 0 where
    pub plan : Plan
    pub paged : Paged plan s'
    pub grown : Grown g s plan s'
