-- ===== src/Loader/Draw.antt =====
-- The drawing of the boot menu in gnu-efi/bootloader/main.c. Its frame buffer, font and `putChar`
-- are those of kernel/src/drivers/video, spelt again.
use kess_os_paranoid_edition.Base.{ℕ, zero, suc, ◌+◌, ◌-◌, ◌/◌, ◌^◌, List, [], ◌∷◌, u32, u64}
use kess_os_paranoid_edition.Log.{codes}
use kess_os_paranoid_edition.Memory.{Memory, store32}
use kess_os_paranoid_edition.Screen.{Framebuffer, Font, pixel, put_rows, glyph, clear_lines}

abbrev pub background_color : ℕ
background_color = 0x0000FF

abbrev pub top_text : List ℕ
top_text =
    codes
      "KessBoot v1.4 -- use up/down arrows to move and right arrow to select. Or left arrow for legacy support."

unfoldable pub clear_screen : Framebuffer → ℕ → Memory → Memory
unfolding clear_lines
clear_screen lfb color m = clear_lines lfb color lfb.height 0 m

unfoldable pub put_char : Framebuffer → Font → ℕ → ℕ → ℕ → ℕ → Memory → Memory
unfolding put_rows glyph
put_char framebuffer font color chr x_off y_off m =
    put_rows framebuffer color (u32 (y_off + 16) - y_off) (glyph font chr) x_off y_off m

module _ (lfb : Framebuffer) where
  -- `(lfb->height / 2) - 245` in 32 bits.
  unfoldable pub start : ℕ
  start = u32 (lfb.height / 2 + (2 ^ 32 - 245))

  unfoldable pub limit : ℕ
  unfolding start
  limit = u32 (start + 15)

  -- The loops that fill a bar, over `y` in one column and over `x`.
  unfoldable pub bar_column : ℕ → ℕ → ℕ → ℕ → Memory → Memory
  unfolding pixel store32
  bar_column color zero x y m = m
  bar_column color (suc left) x y m =
      bar_column color left x (y + 1) (store32 m (pixel lfb x y) color)

  unfoldable pub draw_bar : ℕ → ℕ → ℕ → ℕ → ℕ → Memory → Memory
  unfolding bar_column
  draw_bar color from to zero x m = m
  draw_bar color from to (suc left) x m =
      draw_bar color from to left (x + 1) (bar_column color (to - from) x from m)

  module _ (font : Font) where
    -- The loops that draw a text from `x` on: the 64-bit coordinates are cut to an unsigned int.
    unfoldable pub draw_text : List ℕ → ℕ → ℕ → Memory → Memory
    unfolding put_char
    draw_text [] x y m = m
    draw_text (chr ∷ chrs) x y m =
        draw_text chrs (u64 (x + 8)) y (put_char lfb font 0x000000 chr (u32 x) (u32 y) m)

    -- One option: its bar across the screen and its text.
    abbrev option : ℕ → List ℕ → ℕ → ℕ → Memory → Memory
    option color name from to m =
        draw_text name (u64 (start + 350)) from (draw_bar color from to lfb.width 0 m)

    abbrev title : Memory → Memory
    title m = draw_text top_text (u64 (start + 100)) 50 (clear_screen lfb background_color m)

    unfoldable pub menu_select_boot : Memory → Memory
    unfolding start limit draw_text draw_bar clear_screen
    menu_select_boot m =
        option 0x808080 (codes "REBOOT []") (start + 50) (start + 50 + 15)
          (option 0xFFFFFF (codes "BOOT [X]") start limit (title m))

    unfoldable pub menu_select_reboot : Memory → Memory
    unfolding start limit draw_text draw_bar clear_screen
    menu_select_reboot m =
        option 0xFFFFFF (codes "REBOOT [X]") (start + 50) (start + 50 + 15)
          (option 0x808080 (codes "BOOT []") start limit (title m))
