-- ===== src/Loader/Load.antt =====
-- gnu-efi/bootloader/main.c: the frame buffer, the files and the segments of the kernel. A local
-- variable whose address is passed on lies in memory, at an address that is a parameter.
use kess_os_paranoid_edition.Base.{
  ℕ, zero, suc, ◌+◌, ◌-◌, ◌*◌, ◌^◌, none, some, List, ◌||◌, not, ◌==◌, leb, ltb, if◌then◌else◌, u32,
}
use kess_os_paranoid_edition.Log.{codes}
use kess_os_paranoid_edition.Memory.{Memory, load16, load32, load64, store32, store64}
use kess_os_paranoid_edition.Outcome.{done, Cmd, ◌>>=◌, ◌>>◌}
use kess_os_paranoid_edition.Screen.{Framebuffer, Font}
use kess_os_paranoid_edition.Loader.{is_font, glyph_buffer_size, segment_pages}
use kess_os_paranoid_edition.Loader.Firmware.{
  World, Uefi, loaded_image, simple_file_system, ask, tell, peek, poke,
}

-- `framebuffer_t` at an address: 32 bytes with the padding at its end.
unfoldable pub framebuffer_at : Memory → ℕ → Framebuffer
framebuffer_at m p = record {
  base_addr = load64 m p;
  buffer_size = load64 m (p + 8);
  width = load32 m (p + 16);
  height = load32 m (p + 20);
  ppsl = load32 m (p + 24);
}

-- `psf1_font_t` at an address, with the header that it points to.
unfoldable pub font_at : Memory → ℕ → Font
font_at m p =
    let header = load64 m p in
    record {
      magic0 = m header;
      magic1 = m (header + 1);
      mode = m (header + 2);
      chsize = m (header + 3);
      glyph_buffer = load64 m (p + 8);
    }

-- What `initGOP` copies: the mode is behind the pointer at 24, and its information behind that at
-- 8 of the mode.
unfoldable pub mode_framebuffer : Memory → ℕ → Framebuffer
mode_framebuffer m gop =
    let mode = load64 m (gop + 24) in
    let info = load64 m (mode + 8) in
    record {
      base_addr = load64 m (mode + 24);
      buffer_size = load64 m (mode + 32);
      width = load32 m (info + 4);
      height = load32 m (info + 8);
      ppsl = load32 m (info + 32);
    }

-- `loadedImage->DeviceHandle`, `sysTable->NumberOfTableEntries` and
-- `sysTable->ConfigurationTable`.
abbrev pub device_handle : Memory → ℕ → ℕ
device_handle m image = load64 m (image + 24)

abbrev pub number_of_table_entries : Memory → ℕ → ℕ
number_of_table_entries m sys_table = load64 m (sys_table + 104)

abbrev pub configuration_table : Memory → ℕ → ℕ
configuration_table m sys_table = load64 m (sys_table + 112)

-- An `int` that is passed for a UINTN.
abbrev pub sign_extended : ℕ → ℕ
sign_extended n = if ltb (u32 n) (2 ^ 31) then u32 n else 2 ^ 64 - 2 ^ 32 + u32 n

-- `header.e_phnum * header.e_phentsize` of an Elf64_Ehdr, before it is cut to an `int`.
unfoldable pub table_size : Memory → ℕ → ℕ
table_size m header = load16 m (header + 56) * load16 m (header + 54)

-- The rounds of the loop over the program headers. A product past INT_MAX is negative in an `int`.
unfoldable pub segment_rounds : Memory → ℕ → ℕ → ℕ
unfolding table_size
segment_rounds m header prog_headers =
    if load16 m (header + 54) == 0
      || leb (2 ^ 31) (table_size m header)
      || leb (2 ^ 64) (prog_headers + table_size m header)
    then 0
    else load16 m (header + 56)

module _ {F : Type 0} (uefi : Uefi F) where
  -- A null pointer is 0.
  unfoldable pub init_gop : Cmd (World F) ℕ
  unfolding mode_framebuffer store32 store64
  init_gop = do
    found ← ask uefi.locate_graphics
    elim found [
      | none ↦ done 0
      | some gop ↦ do
        fb ← ask (uefi.allocate_pool 32)
        poke λ m. store64 m fb (mode_framebuffer m gop).base_addr
        poke λ m. store64 m (fb + 8) (mode_framebuffer m gop).buffer_size
        poke λ m. store32 m (fb + 16) (mode_framebuffer m gop).width
        poke λ m. store32 m (fb + 20) (mode_framebuffer m gop).height
        poke λ m. store32 m (fb + 24) (mode_framebuffer m gop).ppsl
        done fb
    ]

  unfoldable pub load_file : ℕ → List ℕ → ℕ → Cmd (World F) ℕ
  load_file dir path image_handle = do
    image ← ask (uefi.handle_protocol image_handle loaded_image)
    device ← peek λ m. device_handle m image
    fs ← ask (uefi.handle_protocol device simple_file_system)
    dir' ← if dir == 0 then ask (uefi.open_volume fs) else done dir
    file ← ask (uefi.open_file dir' path)
    elim file [ none ↦ done 0 | some file_res ↦ done file_res ]

  -- The part of `loadFont` behind the test of the magic bytes. `chsize` is a byte, so that the size
  -- of the glyphs fits an `int`.
  unfoldable pub load_glyphs : ℕ → ℕ → Cmd (World F) ℕ
  unfolding glyph_buffer_size store64
  load_glyphs font font_header = do
    size ← peek λ m. glyph_buffer_size (m (font_header + 2)) (m (font_header + 3))
    tell (uefi.set_position font 4)
    glyph_buffer ← ask (uefi.allocate_pool size)
    tell (uefi.read font size glyph_buffer)
    font_res ← ask (uefi.allocate_pool 16)
    poke λ m. store64 m font_res font_header
    poke λ m. store64 m (font_res + 8) glyph_buffer
    done font_res

  unfoldable pub load_font : ℕ → List ℕ → ℕ → Cmd (World F) ℕ
  unfolding load_file load_glyphs is_font
  load_font dir path image_handle = do
    font ← load_file dir path image_handle
    if font == 0 then tell (uefi.print (codes "Font file not found!\n")) >> done 0 else do
      font_header ← ask (uefi.allocate_pool 4)
      tell (uefi.read font 4 font_header)
      valid ← peek λ m. is_font (m font_header) (m (font_header + 1))
      if valid
          then load_glyphs font font_header
          else tell (uefi.print (codes "Font header invalid!\n")) >> done 0

  -- The body of the loop at an Elf64_Phdr: p_type at 0, p_offset at 8, p_paddr at 24, p_filesz at
  -- 32 and p_memsz at 40. PT_LOAD is 1.
  unfoldable pub load_segment : ℕ → ℕ → Cmd (World F) (Unit {0})
  unfolding segment_pages
  load_segment kernel phdr = do
    p_type ← peek λ m. load32 m phdr
    if not (p_type == 1) then done tt else do
      pages ← peek λ m. sign_extended (segment_pages (load64 m (phdr + 40)))
      p_paddr ← peek λ m. load64 m (phdr + 24)
      segment ← ask (uefi.allocate_pages pages p_paddr)
      p_offset ← peek λ m. load64 m (phdr + 8)
      tell (uefi.set_position kernel p_offset)
      p_filesz ← peek λ m. load64 m (phdr + 32)
      tell (uefi.read kernel p_filesz segment)

  -- The loop from `phdr`, with `left` rounds to go. The size of an entry and the number of them are
  -- those of the header when the loop starts.
  unfoldable pub load_segments : ℕ → ℕ → ℕ → ℕ → Cmd (World F) (Unit {0})
  unfolding load_segment
  load_segments kernel ent_size zero phdr = done tt
  load_segments kernel ent_size (suc left) phdr =
      load_segment kernel phdr >> load_segments kernel ent_size left (phdr + ent_size)
