-- ===== src/Loader/Bars.antt =====
-- The bars that the boot menu of gnu-efi/bootloader/main.c draws.
use kess_os_paranoid_edition.Base.{
  ℕ, zero, suc, ◌+◌, ◌-◌, ◌%◌, ◌^◌, ◌≤◌, ◌<◌, ◌≡◌, ◌∙◌, arith, leb, ltb, ◌==◌, ◌&&◌, if◌then◌else◌,
}
use kess_os_paranoid_edition.Memory.{Memory, load32, store32}
use kess_os_paranoid_edition.Screen.{Framebuffer, pixel}
use kess_os_paranoid_edition.Screen.Pixels.{IsPlaced, store_pixel_lem}
use kess_os_paranoid_edition.Loader.Draw.{bar_column, draw_bar}

module _ (fb : Framebuffer) (placed : IsPlaced fb) (color px py : ℕ) (hpx : px < fb.ppsl)
    (hpy : py < fb.height) where
  abbrev at : Memory → ℕ
  at m = load32 m (pixel fb px py)

  bar_column_lem :
      (left x y : ℕ) (m : Memory)
      → x < fb.ppsl
      → y + left ≤ fb.height
      → at (bar_column fb color left x y m)
        ≡ (if px == x && leb y py && ltb py (y + left) then color % 2 ^ 32 else at m)
  unfolding bar_column
  bar_column_lem zero x y m hx hy = ground arith
  bar_column_lem (suc left) x y m hx hy =
      bar_column_lem left x (y + 1) (store32 m (pixel fb x y) color) hx (omega arith)
      ∙ ground (arith, store_pixel_lem fb placed color px py hpx hpy x y m hx (omega arith))

  -- On a frame buffer within the address space, a bar of the menu gives its colour to every pixel
  -- of its lines in its columns, where these lie within the lines and the height, and leaves every
  -- other pixel.
  pub draw_bar_lem :
      (from to left x : ℕ) (m : Memory)
      → x + left ≤ fb.ppsl
      → from ≤ to
      → to ≤ fb.height
      → at (draw_bar fb color from to left x m) ≡ (
          if leb x px && ltb px (x + left) && leb from py && ltb py to
          then color % 2 ^ 32
          else at m)
  unfolding draw_bar
  draw_bar_lem from to zero x m hx order hy = ground arith
  draw_bar_lem from to (suc left) x m hx order hy =
      let whole : from + (to - from) ≡ to = omega arith in
      draw_bar_lem from to left (x + 1) (bar_column fb color (to - from) x from m) (omega arith)
        order hy
      ∙ ground (arith, bar_column_lem (to - from) x from m (omega arith) (omega arith))
