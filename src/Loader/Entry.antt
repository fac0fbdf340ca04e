-- ===== src/Loader/Entry.antt =====
-- How `efi_main` of gnu-efi/bootloader/main.c ends.
use kess_os_paranoid_edition.Base.{
  ℕ, ◌+◌, ◌≡◌, ◌≢◌, ◌∙◌, ap, inl, inr, refl, arith, true, false, Bool-cases, Option, none, some,
  ◌==◌,
}
use kess_os_paranoid_edition.Log.{codes}
use kess_os_paranoid_edition.Memory.{load16, load64}
use kess_os_paranoid_edition.Outcome.{Outcome, done, out_of_fuel, and_then, through, branch}
use kess_os_paranoid_edition.Loader.{is_kernel, Menu, menu_start}
use kess_os_paranoid_edition.Loader.Draw.{menu_select_boot}
use kess_os_paranoid_edition.Loader.Selection.{IsChosen}
use kess_os_paranoid_edition.Loader.Keys.{view}
use kess_os_paranoid_edition.Loader.Firmware.{World, Uefi, MapAnswer}
use kess_os_paranoid_edition.Loader.Load.{
  framebuffer_at, font_at, sign_extended, table_size, segment_rounds, init_gop, load_file,
  load_font, load_segments,
}
use kess_os_paranoid_edition.Loader.Boot.{
  Selection, Handover, Environment, menu_keys, hand_over, run_menu, with_screen, set_up_screen,
  load_and_run, boot_kernel, check_kernel, efi_main,
}
use kess_os_paranoid_edition.Loader.Requests.{
  Chose, chose, undecided, load_file-Returns, init_gop-Returns, load_font-Returns,
  load_segments-Returns, menu_keys-Chose,
}

module _ {F : Type 0} (uefi : Uefi F) where
  module _ (env : Environment) (image_handle : ℕ) (start : World F) where
    -- `kernel` is the file kernel.elf, not null, and `v` the state once its first 64 bytes are read
    -- into `header`.
    pub record IsOpened (kernel : ℕ) (v : World F) : Type 0 where
      pub found : World F
      pub file :
          load_file uefi 0
            (codes "kernel.elf")
            image_handle
            (uefi.initialize_lib image_handle start)
          ≡ done kernel found
      pub not_null : kernel ≢ 0
      pub header_read : v ≡ uefi.read kernel 64 env.header (uefi.get_info kernel found)

    -- The boot menu, as it is drawn first.
    abbrev with_menu : ℕ → ℕ → World F → World F
    with_menu lfb font w = record w {
      mem = menu_select_boot (framebuffer_at w.mem lfb) (font_at w.mem font) w.mem;
    }

    -- The kernel is called: behind a header that is right, with a font that was found and good, by
    -- what the loop of the menu ended with, in whose state `hand_over` has run, and once the boot
    -- services have been left with the key of the memory map that is handed over, no service having
    -- been called since.
    pub record IsEntered (h : Handover) (w : World F) : Type 0 where
      pub kernel : ℕ
      pub loaded : World F
      pub opened : IsOpened kernel loaded
      pub header : is_kernel loaded.mem env.header env.elf_magic ≡ true
      pub font : h.font ≢ 0
      pub fuel : ℕ
      pub begun : World F
      pub lfb : ℕ
      pub screened : World F
      pub screen : init_gop uefi begun ≡ done lfb screened
      pub furnished : World F
      pub font_loaded :
          load_font uefi 0 (codes "zap-light16.psf") image_handle screened ≡ done h.font furnished
      pub shown : World F
      pub drawn : shown ≡ with_menu lfb h.font furnished
      pub choice : Menu
      pub selected : World F
      pub chosen : IsChosen choice
      pub menu :
          menu_keys uefi fuel lfb h.font (view (menu_start env.stack.0)) shown
          ≡ done (view choice) selected
      pub handed :
          hand_over uefi env image_handle lfb h.font choice.legacy_boot selected ≡ done (some h) w
      pub legacy_mode : h.legacy_mode ≡ choice.legacy_boot
      pub wanted : ℕ
      pub before : World F
      pub after : World F
      pub answer : MapAnswer
      pub mapped : uefi.get_memory_map wanted h.mem_info.m_map before ≡ (answer, after)
      pub map_size : h.mem_info.m_size ≡ answer.map_size
      pub descriptor_size : h.mem_info.m_descriptor_size ≡ answer.descriptor_size
      pub entry : h.entry ≡ load64 after.mem (env.header + 24)
      pub left : w ≡ uefi.exit_boot_services image_handle answer.map_key after

    -- `efi_main` returns to the firmware without kernel.elf, on a bad header, or without a font,
    -- calls the kernel, or is still in the menu.
    pub data Ends : Outcome (World F) (Option Handover) → Type 0 where
      no_kernel :
          {v : World F} (u : World F)
          → load_file uefi 0
              (codes "kernel.elf")
              image_handle
              (uefi.initialize_lib image_handle start)
            ≡ done 0 u
          → Ends (done none v)
      bad_header :
          {v : World F} (kernel : ℕ) (loaded : World F)
          → IsOpened kernel loaded
          → is_kernel loaded.mem env.header env.elf_magic ≡ false
          → Ends (done none v)
      no_font :
          {v : World F} (lfb : ℕ) (t u u' : World F)
          → init_gop uefi t ≡ done lfb u
          → load_font uefi 0 (codes "zap-light16.psf") image_handle u ≡ done 0 u'
          → Ends (done none v)
      entered : {h : Handover} {v : World F} → IsEntered h v → Ends (done (some h) v)
      waiting : Ends out_of_fuel

    module _ (kernel : ℕ) (loaded : World F) (opened : IsOpened kernel loaded)
        (right : is_kernel loaded.mem env.header env.elf_magic ≡ true) where
      hand_over-Ends :
          (fuel lfb font : ℕ) (t u u' v : World F) (m : Menu)
          → init_gop uefi t ≡ done lfb u
          → load_font uefi 0 (codes "zap-light16.psf") image_handle u ≡ done font u'
          → menu_keys uefi fuel lfb font (view (menu_start env.stack.0)) (with_menu lfb font u')
            ≡ done (view m) v
          → IsChosen m
          → Ends (hand_over uefi env image_handle lfb font m.legacy_boot v)
      unfolding hand_over
      hand_over-Ends fuel lfb font t u u' v m g e menu chosen = elim (Bool-cases (font == 0)) [
        | inl null ↦
            let zero_font : font ≡ 0 = ground arith in
            rw null (no_font lfb t u u' g (e ∙ ap (λ f. done f u') zero_font))
        | inr not_null ↦ rw not_null (
            entered record {
              kernel = kernel;
              loaded = loaded;
              opened = opened;
              header = right;
              font = λ null. ground arith;
              fuel = fuel;
              begun = t;
              lfb = lfb;
              screened = u;
              screen = g;
              furnished = u';
              font_loaded = e;
              shown = _;
              drawn = refl;
              choice = m;
              selected = v;
              menu = menu;
              handed = rw not_null refl;
              chosen = chosen;
              legacy_mode = refl;
              wanted = _;
              before = _;
              after = _;
              answer = _;
              mapped = refl;
              map_size = refl;
              descriptor_size = refl;
              entry = refl;
              left = refl;
            })
      ]

      menu-Ends :
          (fuel lfb font : ℕ) (t u u' : World F) (o : Outcome (World F) Selection)
          → init_gop uefi t ≡ done lfb u
          → load_font uefi 0 (codes "zap-light16.psf") image_handle u ≡ done font u'
          → menu_keys uefi fuel lfb font (view (menu_start env.stack.0)) (with_menu lfb font u') ≡ o
          → Chose uefi o
          → Ends (and_then o λ s. hand_over uefi env image_handle lfb font s.legacy_boot)
      menu-Ends fuel lfb font t u u' o g e run (chose m v h) =
          hand_over-Ends fuel lfb font t u u' v m g e run h
      menu-Ends fuel lfb font t u u' o g e run undecided = waiting

      with_screen-Ends :
          (fuel lfb : ℕ) (t u : World F)
          → init_gop uefi t ≡ done lfb u
          → Ends (with_screen uefi env fuel image_handle lfb u)
      unfolding with_screen run_menu
      with_screen-Ends fuel lfb t u g =
          through Ends (load_font uefi 0 (codes "zap-light16.psf") image_handle u)
            (run_menu uefi env fuel image_handle lfb) (load_font-Returns uefi 0 _ image_handle u)
            λ font u' f. menu-Ends fuel lfb font t u u' _ g f refl (
              menu_keys-Chose uefi lfb font fuel (menu_start env.stack.0) (with_menu lfb font u')
                record { entry = inl (refl, refl); legacy = refl })

      set_up_screen-Ends :
          (fuel : ℕ) (t : World F) → Ends (set_up_screen uefi env fuel image_handle t)
      unfolding set_up_screen
      set_up_screen-Ends fuel t =
          through Ends (init_gop uefi t) (with_screen uefi env fuel image_handle)
            (init_gop-Returns uefi t) λ lfb u. with_screen-Ends fuel lfb t u

      load_and_run-Ends :
          (fuel prog_headers : ℕ) (v : World F)
          → Ends (load_and_run uefi env fuel image_handle kernel prog_headers v)
      unfolding load_and_run
      load_and_run-Ends fuel prog_headers v =
          let size = load16 v.mem (env.header + 54) in
          let rounds = segment_rounds v.mem env.header prog_headers in
          through Ends (load_segments uefi kernel size rounds prog_headers v)
            (λ _. set_up_screen uefi env fuel image_handle)
            (load_segments-Returns uefi kernel size rounds prog_headers v)
            λ _ t _. set_up_screen-Ends fuel t

      boot_kernel-Ends :
          (fuel : ℕ) (v : World F) → Ends (boot_kernel uefi env fuel image_handle kernel v)
      unfolding boot_kernel
      boot_kernel-Ends fuel v =
          let v1 = uefi.set_position kernel (load64 v.mem (env.header + 32)) v in
          let size = sign_extended (table_size v1.mem env.header) in
          let pool = uefi.allocate_pool size v1 in
          load_and_run-Ends fuel pool.0 (uefi.read kernel size pool.0 pool.1)

    check_kernel-Ends :
        (fuel kernel : ℕ) (u : World F)
        → load_file uefi 0
            (codes "kernel.elf")
            image_handle
            (uefi.initialize_lib image_handle start)
          ≡ done kernel u
        → kernel ≢ 0
        → Ends (check_kernel uefi env fuel image_handle kernel u)
    unfolding check_kernel
    check_kernel-Ends fuel kernel u file not_null =
        let v = uefi.read kernel 64 env.header (uefi.get_info kernel u) in
        let opened : IsOpened kernel v = record {
          found = u;
          file = file;
          not_null = not_null;
          header_read = refl;
        } in
        branch Ends (is_kernel v.mem env.header env.elf_magic)
          (boot_kernel uefi env fuel image_handle kernel) _ v
          (λ right. boot_kernel-Ends kernel v opened right fuel v)
          λ wrong. bad_header kernel v opened wrong

    -- Whatever the firmware does, efi_main calls the kernel only behind a header that passes the
    -- ELF tests, with a font that is not null, in the state in which the loop over the keys, begun
    -- at the boot menu that is drawn behind initGOP and loadFont, has ended with the boot entry
    -- chosen, with the legacy flag that the loop left, with the entry of the header and the size
    -- of the map that GetMemoryMap gave last, and right behind ExitBootServices with the key of
    -- that map and nothing asked for in between; else it returns because kernel.elf is not found,
    -- its header fails or no font is taken, or the menu has no more fuel.
    pub efi_main-Ends : (fuel : ℕ) → Ends (efi_main uefi env fuel image_handle start)
    unfolding efi_main
    efi_main-Ends fuel =
        let v = uefi.initialize_lib image_handle start in
        through Ends (load_file uefi 0 (codes "kernel.elf") image_handle v) _
          (load_file-Returns uefi 0 (codes "kernel.elf") image_handle v)
          λ kernel u file.
            branch Ends (kernel == 0) _ (check_kernel uefi env fuel image_handle kernel) u
              (λ null.
                let zero_kernel : kernel ≡ 0 = ground arith in
                no_kernel u (file ∙ ap (λ k. done k u) zero_kernel))
              λ full. check_kernel-Ends fuel kernel u file (λ e. ground arith)
