-- ===== src/Screen.antt =====
-- kernel/src/drivers/video: pixels, characters and text on a linear frame buffer.
pub mod Clear
pub mod Cursor
pub mod Glyph
pub mod Overrun
pub mod Pixels
pub mod Room
mod Tests
use kess_os_paranoid_edition.Base.{
  ℕ, zero, suc, ◌+◌, ◌-◌, ◌*◌, ◌/◌, ◌%◌, ◌^◌, bit_and, Bool, List, [], ◌∷◌, ◌==◌, ltb, leb,
  if◌then◌else◌, u32, u64, ◌>>>◌,
}
use kess_os_paranoid_edition.Memory.{Memory, store32}

-- `framebuffer_t`
pub record Framebuffer : Type 0 where
  pub base_addr : ℕ
  pub buffer_size : ℕ
  pub width : ℕ
  pub height : ℕ
  pub ppsl : ℕ

-- `psf1_font_t`, with the `psf1_header_t` that it points to.
pub record Font : Type 0 where
  pub magic0 : ℕ
  pub magic1 : ℕ
  pub mode : ℕ
  pub chsize : ℕ
  pub glyph_buffer : ℕ

-- `canvas_t`
pub record Canvas : Type 0 where
  pub x : ℕ
  pub y : ℕ
  pub prev_x : ℕ
  pub lfb : Framebuffer
  pub font : Font

-- `pixPtr + x + (y * framebuffer->ppsl)`
unfoldable pub pixel : Framebuffer → ℕ → ℕ → ℕ
pixel fb x y = u64 (fb.base_addr + 4 * (x + y * fb.ppsl))

-- A `char` is signed: those from 128 on have their glyphs in front of the buffer.
unfoldable pub glyph : Font → ℕ → ℕ
glyph font chr = u64 (
    font.glyph_buffer
    + (if ltb chr 128 then chr * font.chsize else 2 ^ 64 - (256 - chr) * font.chsize))

-- The bit of column `x` in the byte at `font_ptr`.
abbrev pub is_lit : Memory → ℕ → ℕ → Bool
is_lit m font_ptr column = ltb 0 (bit_and (m font_ptr) (0x80 >>> column))

module _ (fb : Framebuffer) (color : ℕ) where
  -- The loop over `x`, with `left` columns to go.
  unfoldable pub put_row : ℕ → ℕ → ℕ → ℕ → ℕ → Memory → Memory
  unfolding pixel store32
  put_row zero font_ptr x_off y x m = m
  put_row (suc left) font_ptr x_off y x m =
      put_row left font_ptr x_off y (x + 1)
        (if is_lit m font_ptr (x - x_off) then store32 m (pixel fb x y) color else m)

  -- The loop over `y`, with `left` rows to go.
  unfoldable pub put_rows : ℕ → ℕ → ℕ → ℕ → Memory → Memory
  unfolding put_row
  put_rows zero font_ptr x_off y m = m
  put_rows (suc left) font_ptr x_off y m =
      put_rows left (u64 (font_ptr + 1)) x_off (y + 1)
        (put_row (u32 (x_off + 8) - x_off) font_ptr x_off y x_off m)

unfoldable pub put_char : Framebuffer → Font → ℕ → ℕ → ℕ → ℕ → Memory → Memory
unfolding put_rows glyph
put_char fb font color chr x_off y_off m =
    put_rows fb color (u32 (y_off + 16) - y_off) (glyph font chr) x_off y_off m

-- An unsigned sum that is returned as an `int`, and indexes with its sign.
unfoldable pub get_pixel_idx : Canvas → ℕ → ℕ → ℕ
get_pixel_idx canvas x y = u32 (x + y * canvas.lfb.ppsl)

unfoldable pub put_pix : Canvas → ℕ → ℕ → ℕ → Memory → Memory
unfolding get_pixel_idx store32
put_pix canvas x y color m =
    let idx = get_pixel_idx canvas x y in
    let offset = if ltb idx (2 ^ 31) then 4 * idx else 2 ^ 64 - 4 * (2 ^ 32 - idx) in
    store32 m (u64 (canvas.lfb.base_addr + offset)) color

-- The loops of `draw_square` over `sy` and over `sx`.
unfoldable pub square_column : Canvas → ℕ → ℕ → ℕ → ℕ → Memory → Memory
unfolding put_pix
square_column canvas color zero sx sy m = m
square_column canvas color (suc left) sx sy m =
    square_column canvas color left sx (sy + 1) (put_pix canvas sx sy color m)

unfoldable pub square_columns : Canvas → ℕ → ℕ → ℕ → ℕ → ℕ → Memory → Memory
unfolding square_column
square_columns canvas color zero y h sx m = m
square_columns canvas color (suc left) y h sx m =
    square_columns canvas color left y h (sx + 1)
      (square_column canvas color (u32 (y + h) - y) sx y m)

unfoldable pub draw_square : Canvas → ℕ → ℕ → ℕ → ℕ → ℕ → Memory → Memory
unfolding square_columns
draw_square canvas x y w h color m = square_columns canvas color (u32 (x + w) - x) y h x m

-- The memory and the global `canvas`.
pub record Display : Type 0 where
  pub mem : Memory
  pub canvas : Canvas

-- The move to the next column of text, at the bottom of the screen.
abbrev pub wrapped : Canvas → Canvas
wrapped c = if leb c.lfb.height c.y then record c { prev_x = u32 (c.prev_x + 300); y = 10 } else c

-- One round of the loop of `kwrite`.
unfoldable pub kwrite_char : ℕ → ℕ → Display → Display
unfolding put_char
kwrite_char color chr d =
    if chr == b'\n'
    then record d { canvas = record d.canvas { x = d.canvas.prev_x; y = u32 (d.canvas.y + 20) } }
    else (let c = wrapped d.canvas in
        record {
          mem = put_char c.lfb c.font color chr c.x c.y d.mem;
          canvas = record c { x = u32 (c.x + 8) };
        })

-- A text is the list of its bytes before the NUL.
unfoldable pub kwrite : List ℕ → ℕ → Display → Display
unfolding kwrite_char
kwrite [] color d = d
kwrite (chr ∷ chrs) color d = kwrite chrs color (kwrite_char color chr d)

-- The loops of `clearScreen`, over one line and over the lines.
unfoldable pub clear_line : ℕ → ℕ → ℕ → Memory → Memory
unfolding store32
clear_line zero color pixel_ptr m = m
clear_line (suc left) color pixel_ptr m =
    clear_line left color (pixel_ptr + 4) (store32 m pixel_ptr color)

unfoldable pub clear_lines : Framebuffer → ℕ → ℕ → ℕ → Memory → Memory
unfolding clear_line
clear_lines fb color zero vsl m = m
clear_lines fb color (suc left) vsl m =
    let bytes_per_scanline = u32 (fb.ppsl * 4) in
    let pix_ptr_base = u64 (fb.base_addr + bytes_per_scanline * vsl) in
    clear_lines fb color left (vsl + 1) (
      clear_line ((u64 (pix_ptr_base + bytes_per_scanline) - pix_ptr_base + 3) / 4) color
        pix_ptr_base m)

unfoldable pub clear_screen : ℕ → Display → Display
unfolding clear_lines
clear_screen color d = record {
  mem = clear_lines d.canvas.lfb color d.canvas.lfb.height 0 d.mem;
  canvas = record d.canvas { prev_x = 10; x = 10; y = 10 };
}
