-- ===== src/Loader/Boot.antt =====
-- gnu-efi/bootloader/main.c: the menu over the firmware's keyboard, and `efi_main`.
use kess_os_paranoid_edition.Base.{
  ℕ, zero, suc, ◌+◌, Bool, true, false, Option, none, some, ◌&&◌, not, ◌==◌, if◌then◌else◌,
}
use kess_os_paranoid_edition.Log.{codes}
use kess_os_paranoid_edition.Memory.{Memory, load16, load64}
use kess_os_paranoid_edition.MemoryMap.{MemInfo}
use kess_os_paranoid_edition.Outcome.{done, out_of_fuel, Cmd, ◌>>=◌, ◌>>◌}
use kess_os_paranoid_edition.Screen.{Framebuffer, Font}
use kess_os_paranoid_edition.Strings.{ℤ}
use kess_os_paranoid_edition.Loader.{is_kernel, find_rsdp}
use kess_os_paranoid_edition.Loader.Draw.{clear_screen, menu_select_boot, menu_select_reboot}
use kess_os_paranoid_edition.Loader.Firmware.{World, Uefi, ask, tell, peek, poke}
use kess_os_paranoid_edition.Loader.Load.{
  framebuffer_at, font_at, number_of_table_entries, configuration_table, sign_extended, table_size,
  segment_rounds, init_gop, load_file, load_font, load_segments,
}

-- The variables of the menu: ScanCode of `Key`, `menuEntry` and `legacy_boot`.
pub record Selection : Type 0 where
  pub scan_code : ℕ
  pub menu_entry : ℕ
  pub legacy_boot : ℕ

-- The arguments of `kernel_entry`, and where it is.
pub record Handover : Type 0 where
  pub entry : ℕ
  pub lfb : ℕ
  pub font : ℕ
  pub mem_info : MemInfo
  pub rsdp : ℕ
  pub legacy_mode : ℕ

-- The argument `sysTable` of `efi_main`, and where the linker and the stack have put what has its address taken: the literals
-- ELFMAG and "RSD PTR ", and the variable `header`. `compare_guid` is CompareGuid against
-- ACPI_20_TABLE_GUID, and `stack` what the variables `Key.ScanCode` and `mapSize` hold before they
-- are set.
pub record Environment : Type 0 where
  pub elf_magic : ℕ
  pub rsd_ptr : ℕ
  pub header : ℕ
  pub sys_table : ℕ
  pub compare_guid : Memory → ℕ → ℤ
  pub stack : ℕ × ℕ

module _ {F : Type 0} (uefi : Uefi F) where
  -- What `menu_select_boot` and `menu_select_reboot` draw with is read through the pointers.
  abbrev pub draw : (Framebuffer → Font → Memory → Memory) → ℕ → ℕ → Cmd (World F) (Unit {0})
  draw menu lfb font = poke λ m. menu (framebuffer_at m lfb) (font_at m font) m

  -- One round of the loop after `ReadKeyStroke`, and whether the loop goes on.
  unfoldable pub key_round : ℕ → ℕ → Selection → Cmd (World F) (Bool × Selection)
  key_round lfb font s =
      if s.scan_code == 2 && not (s.menu_entry == 0)
      then draw menu_select_reboot lfb font >> done (true, record s { menu_entry = 0 })
      else if s.scan_code == 1 && s.menu_entry == 0
      then draw menu_select_boot lfb font >> done (true, record s { menu_entry = 1 })
      else if s.scan_code == 3
      then (if s.menu_entry == 1
          then done (false, s)
          else if s.menu_entry == 0
          then tell (uefi.out8 0x64 0xFE) >> done (true, s)
          else done (true, s))
      else if s.scan_code == 4 && not (s.menu_entry == 0)
      then done (false, record s { legacy_boot = 1 })
      else done (true, s)

  abbrev pub after_key : Option ℕ → Selection → Selection
  after_key none s = s
  after_key (some code) s = record s { scan_code = code }

  -- The loop, on fuel.
  unfoldable pub menu_keys : ℕ → ℕ → ℕ → Selection → Cmd (World F) Selection
  unfolding key_round
  menu_keys zero lfb font s w = out_of_fuel
  menu_keys (suc fuel) lfb font s w =
      (do
        key ← ask uefi.read_key_stroke
        round ← key_round lfb font (after_key key s)
        elim round.0 [ true ↦ menu_keys fuel lfb font round.1 | false ↦ done round.1 ])
        w

  module _ (env : Environment) where
    -- From `clear_screen(lfb, 0x000000)` to the end.
    unfoldable pub hand_over : ℕ → ℕ → ℕ → ℕ → Cmd (World F) (Option Handover)
    unfolding find_rsdp clear_screen framebuffer_at
    hand_over image_handle lfb font legacy_boot = do
      poke λ m. clear_screen (framebuffer_at m lfb) 0x000000 m
      wanted ← ask (uefi.get_memory_map env.stack.1 0)
      map ← ask (uefi.allocate_pool wanted.map_size)
      answer ← ask (uefi.get_memory_map wanted.map_size map)
      entries ← peek λ m. number_of_table_entries m env.sys_table
      config_table ← peek λ m. configuration_table m env.sys_table
      rsdp ← peek λ m. find_rsdp env.compare_guid env.rsd_ptr entries m config_table
      entry ← peek λ m. load64 m (env.header + 24)
      if font == 0 then done none else do
        tell (uefi.exit_boot_services image_handle answer.map_key)
        done (
            some record {
              entry = entry;
              lfb = lfb;
              font = font;
              mem_info = record {
                m_map = map;
                m_size = answer.map_size;
                m_descriptor_size = answer.descriptor_size;
              };
              rsdp = rsdp;
              legacy_mode = legacy_boot;
            })

    -- The parts of the branch for a kernel whose header is right: from the menu on, from the font
    -- on, from `initGOP` on, and from the loop over the segments on.
    unfoldable pub run_menu : ℕ → ℕ → ℕ → ℕ → Cmd (World F) (Option Handover)
    unfolding menu_select_boot menu_keys hand_over
    run_menu fuel image_handle lfb font = do
      draw menu_select_boot lfb font
      chosen ←
          menu_keys fuel lfb font
            record { scan_code = env.stack.0; menu_entry = 1; legacy_boot = 0 }
      hand_over image_handle lfb font chosen.legacy_boot

    unfoldable pub with_screen : ℕ → ℕ → ℕ → Cmd (World F) (Option Handover)
    unfolding load_font run_menu
    with_screen fuel image_handle lfb = do
      font ← load_font uefi 0 (codes "zap-light16.psf") image_handle
      run_menu fuel image_handle lfb font

    unfoldable pub set_up_screen : ℕ → ℕ → Cmd (World F) (Option Handover)
    unfolding init_gop with_screen
    set_up_screen fuel image_handle = do lfb ← init_gop uefi; with_screen fuel image_handle lfb

    unfoldable pub load_and_run : ℕ → ℕ → ℕ → ℕ → Cmd (World F) (Option Handover)
    unfolding load_segments set_up_screen segment_rounds
    load_and_run fuel image_handle kernel prog_headers = do
      ent_size ← peek λ m. load16 m (env.header + 54)
      rounds ← peek λ m. segment_rounds m env.header prog_headers
      load_segments uefi kernel ent_size rounds prog_headers
      set_up_screen fuel image_handle

    unfoldable pub boot_kernel : ℕ → ℕ → ℕ → Cmd (World F) (Option Handover)
    unfolding load_and_run
    boot_kernel fuel image_handle kernel = do
      e_phoff ← peek λ m. load64 m (env.header + 32)
      tell (uefi.set_position kernel e_phoff)
      size ← peek λ m. sign_extended (table_size m env.header)
      prog_headers ← ask (uefi.allocate_pool size)
      tell (uefi.read kernel size prog_headers)
      load_and_run fuel image_handle kernel prog_headers

    -- The branch for a file that is there.
    unfoldable pub check_kernel : ℕ → ℕ → ℕ → Cmd (World F) (Option Handover)
    unfolding is_kernel boot_kernel
    check_kernel fuel image_handle kernel = do
      tell (uefi.get_info kernel)
      tell (uefi.read kernel 64 env.header)
      valid ← peek λ m. is_kernel m env.header env.elf_magic
      if valid
          then boot_kernel fuel image_handle kernel
          else tell (uefi.print (codes "Kernel ELF header bad!\n")) >> done none

    -- `efi_main`, with the fuel of the menu. `none` is its return to the firmware, and `some` the
    -- call of the kernel.
    unfoldable pub efi_main : ℕ → ℕ → Cmd (World F) (Option Handover)
    unfolding load_file check_kernel
    efi_main fuel image_handle = do
      tell (uefi.initialize_lib image_handle)
      kernel ← load_file uefi 0 (codes "kernel.elf") image_handle
      if kernel == 0
          then tell (uefi.print (codes "Kernel does not exist!\n")) >> done none
          else check_kernel fuel image_handle kernel
