-- ===== src/Vmm/Tests.antt =====
-- Tests of kernel/src/arch/memory, and the theorems about it at concrete states.
use kess_os_paranoid_edition.Base.{
  ℕ, zero, suc, ◌+◌, ◌*◌, ◌%◌, ◌<◌, ◌≡◌, inl, refl, ap, arith, some, none, [], Bool, true, false,
}
use kess_os_paranoid_edition.Memory.{Memory, memzero, load64, load32, store64}
use kess_os_paranoid_edition.Outcome.{Outcome, done, Ensures, returns, halts}
use kess_os_paranoid_edition.MemoryMap.{
  MemDesc, MemInfo, get_mmap_entries, load_desc, mmap_iterator_helper,
}
use kess_os_paranoid_edition.Screen.{Framebuffer, Font}
use kess_os_paranoid_edition.Screen.Room.{IsScreen}
use kess_os_paranoid_edition.Kernel.Terminal.{Terminal}
use kess_os_paranoid_edition.Kernel.Drawing.{IsReady}
use kess_os_paranoid_edition.Vmm.Apart.{IsApart}
use kess_os_paranoid_edition.Vmm.MapApart.{IsMapApart}
use kess_os_paranoid_edition.Vmm.{
  Vmm, map_page, unmap_page, vmm_init, biggest_loop, set_alloc_base, check_base,
}
use kess_os_paranoid_edition.Vmm.Paging.{Paged}
use kess_os_paranoid_edition.Vmm.Paging.Reach.{IsExhausted, IsMapped}
use kess_os_paranoid_edition.Vmm.Total.{Spends, map_page-Spends}
use kess_os_paranoid_edition.Vmm.Map.{map_page-IsMapped}
use kess_os_paranoid_edition.Vmm.Unmap.{IsUnmapped, unmap_page-IsUnmapped}
use kess_os_paranoid_edition.Vmm.Segment.{
  desc, chosen, IsBased, set_alloc_base-IsBased, check_base-passes,
}
use kess_os_paranoid_edition.Vmm.Init.{
  root_plan, IsInitialisedWith, IsReached, vmm_init-IsInitialised, zeroed-Paged,
}

-- A screen of 1024 by 768 pixels at 2 GiB.
abbrev pub lfb : Framebuffer
lfb = record {
  base_addr = 0x80000000;
  buffer_size = 0x300000;
  width = 1024;
  height = 768;
  ppsl = 1024;
}

abbrev pub font : Font
font = record { magic0 = 0x36; magic1 = 4; mode = 0; chsize = 16; glyph_buffer = 0x120000 }

abbrev pub terminal : Terminal
terminal = record {
  canvas = record { x = 0; y = 55; prev_x = 0; lfb = lfb; font = font };
  dec_string = λ q. 0;
  hex_string = λ q. 0;
}

pub lfb-IsScreen : IsScreen lfb
lfb-IsScreen = record {
  placed = record { fits = omega arith };
  columns = omega arith;
  inside = omega arith;
  rows = omega arith;
}

pub lfb-IsReady : IsReady lfb font 23 0 terminal
lfb-IsReady = record {
  room = record {
    lfb = refl;
    font = refl;
    left = omega arith;
    wide = omega arith;
    below = omega arith;
  };
  bytes = λ q. omega arith;
}

abbrev no_desc : MemDesc
no_desc = record { type = 0; phys_addr = 0; virt_addr = 0; n_pages = 0; attr = 0 }

abbrev pub pml4 : ℕ
pml4 = 0x100000

-- Sixteen pages from 2 MiB on, and an empty PML4 at 1 MiB.
abbrev fresh : Vmm
fresh = record {
  mem = memzero pml4 4096 (λ _. 0);
  segment_usable = 16;
  biggest_segment = no_desc;
  placement = 0x200000;
  flushed = [];
  cr3 = none;
  terminal = terminal;
}

fresh-Paged : Paged pml4 0x200000 0x210000 root_plan fresh
fresh-Paged =
    zeroed-Paged pml4 0x210000 (λ _. 0) fresh refl (omega arith) (omega arith) (omega arith)
      (omega arith) (omega arith)

map_page-Spends_example : Spends 16 terminal (map_page pml4 17 0x345000 3 fresh)
map_page-Spends_example = map_page-Spends pml4 17 0x345000 3 fresh (omega arith)

map_page-IsMapped_example :
    Ensures
      (IsMapped pml4 0x200000 0x210000 0x345000 root_plan fresh)
      IsExhausted
      (map_page pml4 17 0x345000 3 fresh)
map_page-IsMapped_example =
    map_page-IsMapped pml4 0x200000 0x210000 17 0x345000 3 root_plan fresh (omega arith)
      (omega arith) (omega arith) fresh-Paged

-- The state that `map_page` leaves there: it returns.
is_done : Outcome Vmm (Unit {0}) → Bool
is_done (done _ s) = true
is_done _ = false

final : Outcome Vmm (Unit {0}) → Vmm
final (done _ s) = s
final _ = fresh

map_page_returns : is_done (map_page pml4 17 0x345000 3 fresh) ≡ true
unfolding is_done map_page load64 memzero store64
map_page_returns = refl

mapped : Vmm
mapped = final (map_page pml4 17 0x345000 3 fresh)

at_final :
    {Q : Unit {0} → Vmm → Type 0} {H : Vmm → Type 0} {o : Outcome Vmm (Unit {0})}
    → Ensures Q H o
    → is_done o ≡ true
    → Q tt (final o)
unfolding is_done final
at_final (returns q) e = q
at_final (halts h) e = cc

mapped-IsMapped : IsMapped pml4 0x200000 0x210000 0x345000 root_plan fresh tt mapped
unfolding mapped
mapped-IsMapped =
    at_final
      (map_page-IsMapped pml4 0x200000 0x210000 17 0x345000 3 root_plan fresh (omega arith)
        (omega arith) (omega arith) fresh-Paged)
      map_page_returns

unmap_page-IsUnmapped_example :
    (u : Vmm) × (unmap_page pml4 0x345000 mapped ≡ done true u)
    × IsUnmapped pml4 0x200000 0x210000 0x345000 mapped-IsMapped.0.plan mapped u
unmap_page-IsUnmapped_example =
    unmap_page-IsUnmapped pml4 0x200000 0x210000 0x345000 mapped-IsMapped.0.plan mapped
      mapped-IsMapped.0.paged (omega arith) (omega arith) mapped-IsMapped.1

-- A memory map of one descriptor at address 0: 8192 usable pages from 2 MiB on.
abbrev map_memory : Memory
map_memory = store64 (store64 (store64 (λ _. 0) 0 7) 8 0x200000) 24 8192

abbrev pub map_info : MemInfo
map_info = record { m_map = 0; m_size = 48; m_descriptor_size = 48 }

abbrev pub booted : Vmm
booted = record {
  mem = map_memory;
  segment_usable = 0;
  biggest_segment = no_desc;
  placement = 0xdeadbeef;
  flushed = [];
  cr3 = none;
  terminal = terminal;
}

pub one_entry : get_mmap_entries map_info ≡ some 1
unfolding get_mmap_entries
one_entry = refl

pub chosen_lem :
    chosen map_info 1 booted
    ≡ record { type = 7; phys_addr = 0x200000; virt_addr = 0; n_pages = 8192; attr = 0 }
unfolding biggest_loop load_desc mmap_iterator_helper load64 load32 store64
chosen_lem = refl

set_alloc_base-IsBased_example :
    (t : Vmm) × (set_alloc_base map_info booted ≡ done tt t) × IsBased map_info 1 booted t
set_alloc_base-IsBased_example = set_alloc_base-IsBased map_info 1 booted one_entry

page_aligned : (j : ℕ) → j < 1 → (desc map_memory map_info j).phys_addr % 4096 ≡ 0
unfolding load_desc mmap_iterator_helper load64 load32 store64
page_aligned zero h = refl
page_aligned (suc j) h = absurd (omega arith)

check_base-passes_example :
    (t : Vmm) × (set_alloc_base map_info booted ≡ done tt t) × (check_base t ≡ done tt t)
check_base-passes_example = check_base-passes map_info 1 booted one_entry page_aligned refl

-- The segment ends at 34 MiB, and the map in the first page.
pub segment-IsApart :
    IsApart lfb pml4
      (chosen map_info 1 booted).phys_addr
      ((chosen map_info 1 booted).phys_addr + 4096 * (chosen map_info 1 booted).n_pages)
segment-IsApart = record {
  root = λ k h. inl (omega arith);
  segment =
      λ q h k. inl (omega (arith, ap MemDesc.phys_addr chosen_lem, ap MemDesc.n_pages chosen_lem));
}

pub map-IsMapApart : IsMapApart lfb map_info 1
unfolding mmap_iterator_helper
map-IsMapApart = record { outside = λ j k h l. inl (omega arith) }

pub lfb-IsReached : IsReached lfb font
lfb-IsReached = record { screen = omega arith; glyphs = omega arith }

vmm_init-IsInitialised_example :
    Ensures
      (IsInitialisedWith lfb lfb-IsScreen font 16 pml4
        (chosen map_info 1 booted).phys_addr
        ((chosen map_info 1 booted).phys_addr + 4096 * (chosen map_info 1 booted).n_pages))
      IsExhausted
      (vmm_init pml4 map_info booted)
vmm_init-IsInitialised_example =
    vmm_init-IsInitialised lfb lfb-IsScreen font pml4 1 16 map_info booted one_entry (omega arith)
      (omega (arith, ap MemDesc.phys_addr chosen_lem))
      (omega (arith, ap MemDesc.phys_addr chosen_lem, ap MemDesc.n_pages chosen_lem))
      (inl (omega (arith, ap MemDesc.phys_addr chosen_lem))) segment-IsApart map-IsMapApart
      lfb-IsReached lfb-IsReady
