-- ===== src/Vmm.antt =====
-- kernel/src/arch/memory/impl/vmm.c: the bump allocator for page tables and the four-level paging
-- structures that it builds. `pml4` is the address of the static top-level table.
pub mod Paging
pub mod Map
pub mod Unmap
pub mod Segment
pub mod Apart
pub mod Init
pub mod MapApart
pub mod Panic
pub mod Tests
pub mod Total
use kess_os_paranoid_edition.Base.{
  ℕ, zero, suc, ◌+◌, ◌-◌, ◌*◌, ◌/◌, ◌%◌, ◌^◌, bit_and, bit_or, Bool, true, false, Option, none,
  some, List, [], ◌∷◌, ◌&&◌, not, ltb, leb, ◌==◌, if◌then◌else◌, u32, u64, ◌<<<◌, ◌>>>◌,
}
use kess_os_paranoid_edition.Memory.{Memory, load64, store64, memzero}
use kess_os_paranoid_edition.Outcome.{
  Outcome, done, halted, fault, out_of_fuel, Cmd, ◌>>=◌, ◌>>◌, and_then, modify, read,
}
use kess_os_paranoid_edition.Log.{Status, info, panic, int, LogCall, codes, message}
use kess_os_paranoid_edition.Kernel.Terminal.{Terminal, print}
use kess_os_paranoid_edition.Screen.{Framebuffer, Font}
use kess_os_paranoid_edition.MemoryMap.{
  page_size, mmap_usable_memory, MemDesc, load_desc, MemInfo, get_mmap_entries,
  mmap_iterator_helper,
}

abbrev pub bit_present : ℕ
bit_present = 1

abbrev pub bit_writable : ℕ
bit_writable = 2

-- Nothing uses the next ones.
abbrev pub bit_user : ℕ
bit_user = 4

abbrev pub bit_accessed : ℕ
bit_accessed = 1 <<< 5

abbrev pub bit_dirty : ℕ
bit_dirty = 1 <<< 6

abbrev pub mb : ℕ
mb = 0x100000

abbrev pub addr_mask : ℕ
addr_mask = 0x000ffffffffff000

abbrev pub gb : ℕ
gb = 0x40000000

-- The static variables of the file, with the machine state that it changes: memory, CR3, the
-- addresses given to `invlpg` and what `log` uses.
pub record Vmm : Type 0 where
  pub mem : Memory
  pub segment_usable : ℕ
  pub biggest_segment : MemDesc
  pub placement : ℕ
  pub flushed : List ℕ
  pub cr3 : Option ℕ
  pub terminal : Terminal

-- The state with text drawn.
abbrev pub redrawn : Vmm → Memory → Terminal → Vmm
redrawn s m t = record s { mem = m; terminal = t }

abbrev pub log : LogCall → Cmd Vmm (Unit {0})
log call s = print call s.mem s.terminal s (redrawn s)

-- The loop of `set_alloc_base` at index `i`, with `left` rounds to go.
unfoldable pub biggest_loop : Memory → MemInfo → ℕ → ℕ → MemDesc → MemDesc
biggest_loop m meminfo zero i biggest = biggest
biggest_loop m meminfo (suc left) i biggest =
    let cur = load_desc m (mmap_iterator_helper i meminfo) in
    biggest_loop m meminfo left (i + 1)
      (if ltb biggest.n_pages cur.n_pages && (cur.type == mmap_usable_memory) then cur else biggest)

unfoldable pub set_alloc_base : MemInfo → Cmd Vmm (Unit {0})
unfolding biggest_loop
set_alloc_base meminfo s = elim (get_mmap_entries meminfo) [
  | none ↦ fault s
  | some entries ↦
      let biggest =
        biggest_loop s.mem meminfo entries 0 (record s.biggest_segment { n_pages = 0 }) in
      done tt (record s {
        biggest_segment = biggest;
        placement = biggest.phys_addr;
        segment_usable = biggest.n_pages;
      })
]

unfoldable pub internel_alloc_page : Cmd Vmm ℕ
internel_alloc_page s =
    if s.segment_usable == 0
    then (log (message "ALLOC_PAGE_FAILED: OUT OF MEMORY!\n" panic) >> halted) s
    else done s.placement (record s {
      segment_usable = s.segment_usable - 1;
      placement = u64 (s.placement + page_size);
    })

unfoldable pub flush_tlb : ℕ → Cmd Vmm (Unit {0})
flush_tlb addr = modify λ s. record s { flushed = addr ∷ s.flushed }

-- The nine bits of an address that index the table at a level: 3 is the PML4, 0 a page table.
abbrev pub index : ℕ → ℕ → ℕ
index level addr = bit_and (addr >>> (12 + 9 * level)) 0x1ff

-- `((struct MappingTable*)table)->entries[idx]`
abbrev pub entry : Memory → ℕ → ℕ → ℕ
entry m table idx = load64 m (table + 8 * idx)

abbrev pub is_present : ℕ → Bool
is_present e = not (bit_and e bit_present == 0)

abbrev pub set_entry : ℕ → ℕ → ℕ → Cmd Vmm (Unit {0})
set_entry table idx e = modify λ s. record s { mem = store64 s.mem (table + 8 * idx) e }

-- The table that an entry points to.
abbrev pub next_table : ℕ → ℕ → Cmd Vmm ℕ
next_table table idx s = done (bit_and (entry s.mem table idx) addr_mask) s

-- The step that `map_page` writes out for each of the three upper levels: where the entry is not
-- present, a zeroed page becomes the table below, and that page is mapped by `map_new`.
unfoldable pub ensure_table : (ℕ → Cmd Vmm (Unit {0})) → ℕ → ℕ → ℕ → Cmd Vmm (Unit {0})
unfolding internel_alloc_page
ensure_table map_new table idx flags = do
  e ← read λ s. entry s.mem table idx
  if is_present e then done tt else do
    page ← internel_alloc_page
    modify λ s. record s { mem = memzero page page_size s.mem }
    set_entry table idx (bit_or (bit_and page addr_mask) flags)
    map_new page

unfoldable pub map_leaf : ℕ → ℕ → ℕ → ℕ → Cmd Vmm (Unit {0})
map_leaf table idx addr flags = do
  e ← read λ s. entry s.mem table idx
  if is_present e then done tt else set_entry table idx (bit_or (bit_and addr addr_mask) flags)

-- The end of `unmap_page`, at the table that its walk has reached.
unfoldable pub clear_leaf : ℕ → ℕ → ℕ → Cmd Vmm Bool
unfolding flush_tlb
clear_leaf table idx addr = do
  e ← read λ s. entry s.mem table idx
  if not (is_present e) then done true else do
    set_entry table idx (bit_and (bit_and addr addr_mask) (2 ^ 64 - 1 - bit_present))
    flush_tlb addr
    done true

-- The panic of `vmm_init` when the allocation base is still the initial one.
unfoldable pub check_base : Cmd Vmm (Unit {0})
check_base s =
    if s.placement == 0xdeadbeef
    then (log (message "ALLOCATE_BASE_SET_FAILED: NO USABLE MEMORY!\n" panic) >> halted) s
    else done tt s

unfoldable pub log_base : Cmd Vmm (Unit {0})
log_base s =
    log
      (record {
        format = codes "Allocation base set at %x\n";
        status = info;
        args = int (u32 s.placement) ∷ [];
      })
      s

-- kernel/src/arch/memory/asm/pml4.asm
unfoldable pub load_pml4 : ℕ → Cmd Vmm (Unit {0})
load_pml4 pml4 = modify λ s. record s { cr3 = some pml4 }

-- Behind `load_pml4` only the first 6 GiB are mapped, so that `log` draws where the frame buffer and
-- the 256 glyphs of the font end there; else it is a page fault, whose handler draws too.
abbrev pub mapped_end : ℕ
mapped_end = gb * 6

unfoldable pub is_drawable : Framebuffer → Font → Bool
is_drawable fb font =
    leb (fb.base_addr + 4 * (fb.height * fb.ppsl)) mapped_end
    && leb (font.glyph_buffer + 256 * font.chsize + 16) mapped_end

abbrev pub paged_log : LogCall → Cmd Vmm (Unit {0})
paged_log call s =
    if is_drawable s.terminal.canvas.lfb s.terminal.canvas.font then log call s else fault s

-- The rounds of the loop of `vmm_init`.
abbrev pub identity_pages : ℕ
identity_pages = gb * 6 / page_size

module _ (pml4 : ℕ) where
  -- The body of `map_page` behind its first statement, `flags |= PAGE_BIT_P_PRESENT`.
  unfoldable pub map_through : (ℕ → Cmd Vmm (Unit {0})) → ℕ → ℕ → Cmd Vmm (Unit {0})
  unfolding ensure_table map_leaf
  map_through map_new logical flags = do
    ensure_table map_new pml4 (index 3 logical) flags
    pdpt ← next_table pml4 (index 3 logical)
    ensure_table map_new pdpt (index 2 logical) flags
    pdt ← next_table pdpt (index 2 logical)
    ensure_table map_new pdt (index 1 logical) flags
    pt ← next_table pdt (index 1 logical)
    map_leaf pt (index 0 logical) logical flags

  -- On fuel, since mapping a new table's page may need new tables in turn.
  unfoldable pub map_page : ℕ → ℕ → ℕ → Cmd Vmm (Unit {0})
  unfolding map_through
  map_page zero logical flags s = out_of_fuel
  map_page (suc fuel) logical flags s =
      map_through (λ page. map_page fuel page (bit_or (u32 flags) bit_present)) logical
        (bit_or (u32 flags) bit_present) s

  -- No level is checked for presence on the way down.
  unfoldable pub unmap_page : ℕ → Cmd Vmm Bool
  unfolding clear_leaf
  unmap_page logical = if not (logical % 0x1000 == 0) then done false else do
    pdpt ← next_table pml4 (index 3 logical)
    pdt ← next_table pdpt (index 2 logical)
    pt ← next_table pdt (index 1 logical)
    clear_leaf pt (index 0 logical) logical

  -- The loop of `vmm_init` from `addr`, with `left` pages to go. The fuel of each call is one
  -- more than the pages that the allocator has left.
  unfoldable pub identity_map : ℕ → ℕ → Cmd Vmm (Unit {0})
  unfolding map_page
  identity_map zero addr s = done tt s
  identity_map (suc left) addr s =
      and_then (map_page (s.segment_usable + 1) addr (bit_or bit_writable bit_present) s)
        λ _. identity_map left (addr + page_size)

  unfoldable pub vmm_init : MemInfo → Cmd Vmm (Unit {0})
  unfolding check_base log_base load_pml4 is_drawable
  vmm_init meminfo = do
    log (message "Setting allocation base..\n" info)
    set_alloc_base meminfo
    check_base
    log_base
    log (message "Zeroing PML4..\n" info)
    modify λ s. record s { mem = memzero pml4 page_size s.mem }
    log (message "Identity mapping some address space for KessKernel..\n" info)
    identity_map identity_pages 0
    log (message "Finished mapping..\n" info)
    log (message "Loading PML4 into CR3 register..\n" info)
    load_pml4 pml4
    paged_log (message "Finished setting up VMM.\n" info)
