-- ===== src/Screen/Overrun.antt =====
-- Where `kwrite` of kernel/src/drivers/video/impl/FrameBuffer.c draws on the last lines of the
-- screen.
use kess_os_paranoid_edition.Base.{
  ℕ, zero, suc, ◌+◌, ◌-◌, ◌*◌, ◌%◌, ◌^◌, ◌≤◌, ◌<◌, ◌≡◌, refl, sym, ap, ◌∙◌, arith, true, false, leb,
  ◌==◌, u32, u64,
}
use native.Mathlib.Nat.{mul-le-mul_right}
use kess_os_paranoid_edition.Memory.{Memory, load32}
use kess_os_paranoid_edition.Screen.{
  Framebuffer, Font, Display, is_lit, glyph, pixel, put_row, put_rows, put_char, kwrite_char,
  wrapped,
}
use kess_os_paranoid_edition.Screen.Pixels.{IsPlaced, pixel_lem}
use kess_os_paranoid_edition.Screen.Glyph.{IsOutside, put_char_lem}

module _ (fb : Framebuffer) (height : ℕ) where
  -- The frame buffer with some other number of lines.
  abbrev pub with_height : Framebuffer
  with_height = record fb { height = height }

  module _ (color : ℕ) where
    put_row-height :
        (left fp x_off y x : ℕ) (m : Memory)
        → put_row with_height color left fp x_off y x m ≡ put_row fb color left fp x_off y x m
    unfolding put_row pixel
    put_row-height zero fp x_off y x m = refl
    put_row-height (suc left) fp x_off y x m = put_row-height left fp x_off y (x + 1) _

    put_rows-height :
        (left fp x_off y : ℕ) (m : Memory)
        → put_rows with_height color left fp x_off y m ≡ put_rows fb color left fp x_off y m
    unfolding put_rows
    put_rows-height zero fp x_off y m = refl
    put_rows-height (suc left) fp x_off y m =
        ap (λ t. put_rows with_height color left (u64 (fp + 1)) x_off (y + 1) t)
          (put_row-height (u32 (x_off + 8) - x_off) fp x_off y x_off m)
        ∙ put_rows-height left (u64 (fp + 1)) x_off (y + 1) _

    -- putChar does not look at the height.
    put_char-height :
        (font : Font) (chr x y : ℕ) (m : Memory)
        → put_char with_height font color chr x y m ≡ put_char fb font color chr x y m
    unfolding put_char
    put_char-height font chr x y m = put_rows-height (u32 (y + 16) - y) (glyph font chr) x y m

-- Where the cursor stands on a line of the screen less than 16 above its end, and eight columns
-- and the glyph fit, a round of kwrite for a character that is not a newline writes the colour
-- behind the end of the frame buffer for each bit that the glyph has set in a row past the last
-- line.
pub kwrite_char-overruns :
    (color chr row col : ℕ) (d : Display)
    → chr == b'\n' ≡ false
    → d.canvas.y < d.canvas.lfb.height
    → d.canvas.lfb.height ≤ d.canvas.y + row
    → row < 16
    → col < 8
    → d.canvas.x + 8 ≤ d.canvas.lfb.ppsl
    → d.canvas.x + 8 < 2 ^ 32
    → d.canvas.y + 16 < 2 ^ 32
    → IsPlaced (with_height d.canvas.lfb (d.canvas.y + 16))
    → glyph d.canvas.font chr + 16 < 2 ^ 64
    → ((k : ℕ)
        → k < 16
        → IsOutside (with_height d.canvas.lfb (d.canvas.y + 16)) (glyph d.canvas.font chr + k))
    → is_lit d.mem (glyph d.canvas.font chr + row) col ≡ true
    → (p : ℕ) × (d.canvas.lfb.base_addr + 4 * (d.canvas.lfb.height * d.canvas.lfb.ppsl) ≤ p)
      × (load32 (kwrite_char color chr d).mem p ≡ color % 2 ^ 32)
unfolding kwrite_char
kwrite_char-overruns color chr row col d shown on_screen past few narrow wide small_x small_y placed
      fits apart lit =
    let c = d.canvas in
    let tall = with_height c.lfb (c.y + 16) in
    let above : leb c.lfb.height c.y ≡ false = ground arith in
    let stays : wrapped c ≡ c = rw above refl in
    let px = c.x + col in
    let py = c.y + row in
    let at_row : c.y + row - c.y ≡ row = omega arith in
    let at_col : c.x + col - c.x ≡ col = omega arith in
    let lit' : is_lit d.mem (glyph c.font chr + (c.y + row - c.y)) (c.x + col - c.x) ≡ true =
      rw (at_row, at_col) lit in
    (
      pixel tall px py,
      rw (pixel_lem tall placed px py (omega arith) (omega arith))
          (omega (arith, mul-le-mul_right {m = c.lfb.height} {n = c.y + row} c.lfb.ppsl past)),
      rw (shown, stays)
          (ap (λ m. load32 m (pixel tall px py))
              (sym (put_char-height c.lfb (c.y + 16) color c.font chr c.x c.y d.mem))
            ∙ put_char_lem tall placed color px py c.x (omega arith) (omega arith) wide small_x
                c.font chr c.y d.mem (omega arith) small_y fits apart
            ∙ ground (arith, lit')),
    )
