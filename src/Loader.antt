-- ===== src/Loader.antt =====
-- gnu-efi/bootloader/main.c: what the boot loader decides. The UEFI services are parameters.
pub mod Bars
pub mod Boot
pub mod Compare
pub mod Draw
pub mod Entry
pub mod Firmware
mod FirmwareTests
pub mod Handover
pub mod Keys
pub mod Load
pub mod Requests
pub mod Rsdp
pub mod Segment
pub mod Segments
pub mod Selection
pub mod Structs
mod Tests
use kess_os_paranoid_edition.Base.{
  ℕ, zero, suc, ◌+◌, ◌-◌, ◌*◌, ◌/◌, ◌%◌, ◌^◌, bit_and, Bool, true, false, Option, none, some, List,
  [], ◌∷◌, not, ◌&&◌, ◌||◌, ◌==◌, ltb, if◌then◌else◌, u64,
}
use kess_os_paranoid_edition.Memory.{Memory, load16, load32, load64}
use kess_os_paranoid_edition.Strings.{ℤ, pos, negsuc}

-- The loop of `memcmp` at index `i`, with `left` bytes to go.
unfoldable pub memcmp_loop : ℕ → Memory → ℕ → ℕ → ℕ → ℤ
memcmp_loop zero m a b i = pos 0
memcmp_loop (suc left) m a b i =
    let rest = memcmp_loop left m a b (i + 1) in
    if ltb (m (a + i)) (m (b + i))
    then negsuc 0
    else if ltb (m (b + i)) (m (a + i))
    then pos 1
    else rest

unfoldable pub memcmp : Memory → ℕ → ℕ → ℕ → ℤ
unfolding memcmp_loop
memcmp m aptr bptr n = memcmp_loop n m aptr bptr 0

abbrev pub is_zero : ℤ → Bool
is_zero (pos n) = n == 0
is_zero (negsuc n) = false

-- The loop of `strlen`, on fuel, at `len`: the NUL counts too.
unfoldable pub strlen_loop : ℕ → Memory → ℕ → ℕ → Option ℕ
strlen_loop zero m str len = none
strlen_loop (suc fuel) m str len =
    let rest = strlen_loop fuel m str (len + 1) in
    if m (str + len) == 0 then some (len + 1) else rest

unfoldable pub strlen : ℕ → Memory → ℕ → Option ℕ
unfolding strlen_loop
strlen fuel m str = strlen_loop fuel m str 0

-- The tests of the ELF header at `header`: EI_CLASS at 4, e_type at 16, e_machine at 18 and
-- e_version at 20. `elf_magic` is where ELFMAG lies.
unfoldable pub is_kernel : Memory → ℕ → ℕ → Bool
unfolding memcmp load16 load32
is_kernel m header elf_magic = not (
    not (is_zero (memcmp m header elf_magic 4))
    || not (m (header + 4) == 2)
    || not (load16 m (header + 16) == 2)
    || not (load16 m (header + 18) == 62)
    || not (load32 m (header + 20) == 1))

-- `pages` of a PT_LOAD segment, before it is cut to an `int`.
unfoldable pub segment_pages : ℕ → ℕ
segment_pages p_memsz = u64 (p_memsz + 0x1000 - 1) / 0x1000

-- The test of `loadFont` on the magic bytes, and the size that it reads.
unfoldable pub is_font : ℕ → ℕ → Bool
is_font magic0 magic1 = not (bit_and magic0 0x36 == 0 || bit_and magic1 0x04 == 0)

unfoldable pub glyph_buffer_size : ℕ → ℕ → ℕ
glyph_buffer_size mode chsize = if mode == 1 then chsize * 512 else chsize * 255

-- Which menu is on the screen: of `menu_select_boot` or of `menu_select_reboot`.
pub data Shown : Type 0 where
  boot_menu reboot_menu : Shown

-- The variables of the menu loop, and how often the port 0x64 was told to reset.
pub record Menu : Type 0 where
  pub scan_code : ℕ
  pub menu_entry : ℕ
  pub legacy_boot : ℕ
  pub screen : Shown
  pub resets : ℕ

-- One round of the loop after `ReadKeyStroke`, and whether the loop goes on.
unfoldable pub menu_round : Menu → Bool × Menu
menu_round s =
    if s.scan_code == 2 && not (s.menu_entry == 0)
    then (true, record s { screen = reboot_menu; menu_entry = 0 })
    else if s.scan_code == 1 && s.menu_entry == 0
    then (true, record s { screen = boot_menu; menu_entry = 1 })
    else if s.scan_code == 3
    then (if s.menu_entry == 1
        then (false, s)
        else if s.menu_entry == 0
        then (true, record s { resets = s.resets + 1 })
        else (true, s))
    else if s.scan_code == 4 && not (s.menu_entry == 0)
    then (false, record s { legacy_boot = 1 })
    else (true, s)

-- The loop over what `ReadKeyStroke` finds, a scan code or no key, which leaves `Key` as it is.
-- `none` stands for a loop that still runs where the input ends.
unfoldable pub menu_loop : List (Option ℕ) → Menu → Option (Menu × List (Option ℕ))
unfolding menu_round
menu_loop [] s = none
menu_loop (key ∷ keys) s =
    let read : Menu = elim key [ none ↦ s | some code ↦ record s { scan_code = code } ] in
    let round = menu_round read in
    let rest = menu_loop keys round.1 in if round.0 then rest else some (round.1, keys)

-- Before the first key `Key` has any value.
abbrev pub menu_start : ℕ → Menu
menu_start scan_code = record {
  scan_code = scan_code;
  menu_entry = 1;
  legacy_boot = 0;
  screen = boot_menu;
  resets = 0;
}

-- `configTable->VendorTable`
abbrev pub vendor_table_at : Memory → ℕ → ℕ
vendor_table_at m config_table = load64 m (config_table + 16)

-- An EFI_CONFIGURATION_TABLE is a GUID of 16 bytes and a pointer. `compare_guid` is CompareGuid of
-- the library, at the address of a GUID, against that of ACPI 2.0: 0 means equal. `rsd_ptr` is where the literal lies.
module _ (compare_guid : Memory → ℕ → ℤ) (rsd_ptr : ℕ) where
  -- The loop at `i`, where `configTable` has grown by as many entries.
  unfoldable pub rsdp_loop : ℕ → Memory → ℕ → ℕ → ℕ → ℕ
  unfolding memcmp load64
  rsdp_loop zero m config_table i rsdp = rsdp
  rsdp_loop (suc left) m config_table i rsdp =
      let vendor_table = vendor_table_at m config_table in
      rsdp_loop left m (config_table + 24) (i + 1) (
        if not (is_zero (compare_guid m (config_table + 24 * i)))
          && is_zero (memcmp m rsd_ptr vendor_table 8)
        then vendor_table
        else rsdp)

  unfoldable pub find_rsdp : ℕ → Memory → ℕ → ℕ
  unfolding rsdp_loop
  find_rsdp n m config_table = rsdp_loop n m config_table 0 0
