-- ===== src/Screen/Clear.antt =====
-- `clearScreen` of kernel/src/drivers/video/impl/FrameBuffer.c.
use kess_os_paranoid_edition.Base.{
  ℕ, zero, suc, ◌+◌, ◌-◌, ◌*◌, ◌/◌, ◌%◌, ◌^◌, ◌≤◌, ◌<◌, ◌≡◌, ◌⊎◌, refl, ◌∙◌, sym, arith, leb, ltb,
  ◌==◌, ◌&&◌, if◌then◌else◌, u32, u64,
}
use kess_os_paranoid_edition.Memory.{Memory, load32, store32}
use kess_os_paranoid_edition.Screen.{
  Framebuffer, Display, pixel, clear_line, clear_lines, clear_screen,
}
use kess_os_paranoid_edition.Screen.Glyph.{IsOutside}
use kess_os_paranoid_edition.Screen.Pixels.{
  store32-outside, IsPlaced, pixel_lem, line_before, store_pixel_lem,
}

module _ (fb : Framebuffer) (placed : IsPlaced fb) (color px py : ℕ) (hpx : px < fb.ppsl)
    (hpy : py < fb.height) where
  abbrev at : Memory → ℕ
  at m = load32 m (pixel fb px py)

  abbrev address : ℕ → ℕ → ℕ
  address x y = fb.base_addr + 4 * (x + y * fb.ppsl)

  store_lem :
      (x y : ℕ) (m : Memory)
      → x < fb.ppsl
      → y < fb.height
      → at (store32 m (address x y) color) ≡ (if py == y && px == x then color % 2 ^ 32 else at m)
  store_lem x y m hx hy =
      let place : address x y ≡ pixel fb x y = sym (pixel_lem fb placed x y hx hy) in
      rw place (store_pixel_lem fb placed color px py hpx hpy x y m hx hy)

  clear_line_lem :
      (left x y : ℕ) (m : Memory)
      → x + left ≤ fb.ppsl
      → y < fb.height
      → at (clear_line left color (address x y) m)
        ≡ (if py == y && leb x px && ltb px (x + left) then color % 2 ^ 32 else at m)
  unfolding clear_line
  clear_line_lem zero x y m hx hy = ground arith
  clear_line_lem (suc left) x y m hx hy =
      let next : address x y + 4 ≡ address (x + 1) y = omega arith in
      rw next (
        clear_line_lem left (x + 1) y (store32 m (address x y) color) (omega arith) hy
        ∙ ground (arith, store_lem x y m (omega arith) hy))

  module _ (narrow : fb.ppsl * 4 < 2 ^ 32)
      (inside : fb.base_addr + 4 * (fb.height * fb.ppsl) < 2 ^ 64) where
    clear_lines_lem :
        (left vsl : ℕ) (m : Memory)
        → vsl + left ≤ fb.height
        → at (clear_lines fb color left vsl m)
          ≡ (if leb vsl py && ltb py (vsl + left) then color % 2 ^ 32 else at m)
    unfolding clear_lines
    clear_lines_lem zero vsl m h = ground arith
    clear_lines_lem (suc left) vsl m h =
        let scanline : u32 (fb.ppsl * 4) ≡ fb.ppsl * 4 = omega arith in
        let product : fb.ppsl * 4 * vsl ≡ 4 * (vsl * fb.ppsl) = omega arith in
        let start : u64 (fb.base_addr + fb.ppsl * 4 * vsl) ≡ address 0 vsl =
          omega (arith, product, line_before fb placed vsl fb.height (omega arith)) in
        let rounds : (u64 (address 0 vsl + fb.ppsl * 4) - address 0 vsl + 3) / 4 ≡ fb.ppsl =
          omega (arith, line_before fb placed vsl fb.height (omega arith)) in
        rw (scanline, start, rounds)
          (clear_lines_lem left (vsl + 1) (clear_line fb.ppsl color (address 0 vsl) m) (omega arith)
            ∙ ground (arith, clear_line_lem fb.ppsl 0 vsl m (omega arith) (omega arith)))

-- What `clearScreen` leaves: every pixel of the screen in the colour, and the text cursor at the
-- top left.
pub record IsCleared (color : ℕ) (before after : Display) : Type 0 where
  pub filled :
      (px py : ℕ)
      → px < before.canvas.lfb.ppsl
      → py < before.canvas.lfb.height
      → load32 after.mem (pixel before.canvas.lfb px py) ≡ color % 2 ^ 32
  pub cursor : after.canvas ≡ record before.canvas { prev_x = 10; x = 10; y = 10 }

-- Where a scanline has fewer than 2 ^ 32 bytes and the frame buffer ends within the address space,
-- clearScreen gives every pixel of the screen the colour and puts the text cursor at (10, 10).
pub clear_screen-IsCleared :
    (color : ℕ) (d : Display)
    → d.canvas.lfb.ppsl * 4 < 2 ^ 32
    → d.canvas.lfb.base_addr + 4 * (d.canvas.lfb.height * d.canvas.lfb.ppsl) < 2 ^ 64
    → IsCleared color d (clear_screen color d)
unfolding clear_screen
clear_screen-IsCleared color d narrow inside = record {
  filled = λ px py hx hy.
      clear_lines_lem d.canvas.lfb record { fits = omega arith } color px py hx hy narrow inside
        d.canvas.lfb.height 0 d.mem (omega arith)
      ∙ ground arith;
  cursor = refl;
}

clear_line-outside :
    (color left p q : ℕ) (m : Memory)
    → (q < p) ⊎ (p + 4 * left ≤ q)
    → clear_line left color p m q ≡ m q
unfolding clear_line
clear_line-outside color zero p q m out = refl
clear_line-outside color (suc left) p q m out =
    clear_line-outside color left (p + 4) q (store32 m p color) (omega arith)
    ∙ store32-outside m p color q (omega arith)

module _ (fb : Framebuffer) (narrow : fb.ppsl * 4 < 2 ^ 32)
    (inside : fb.base_addr + 4 * (fb.height * fb.ppsl) < 2 ^ 64) (color q : ℕ)
    (out : IsOutside fb q) where
  clear_lines-outside :
      (left vsl : ℕ) (m : Memory) → vsl + left ≤ fb.height → clear_lines fb color left vsl m q ≡ m q
  unfolding clear_lines
  clear_lines-outside zero vsl m h = refl
  clear_lines-outside (suc left) vsl m h =
      let placed : IsPlaced fb = record { fits = omega arith } in
      let line = line_before fb placed vsl fb.height (omega arith) in
      let start = fb.base_addr + 4 * (vsl * fb.ppsl) in
      let scanline : u32 (fb.ppsl * 4) ≡ fb.ppsl * 4 = omega arith in
      let product : fb.ppsl * 4 * vsl ≡ 4 * (vsl * fb.ppsl) = omega arith in
      let at_start : u64 (fb.base_addr + fb.ppsl * 4 * vsl) ≡ start =
        omega (arith, product, line) in
      let rounds : (u64 (start + fb.ppsl * 4) - start + 3) / 4 ≡ fb.ppsl = omega (arith, line) in
      rw (scanline, at_start, rounds)
        (clear_lines-outside left (vsl + 1) (clear_line fb.ppsl color start m) (omega arith)
          ∙ clear_line-outside color fb.ppsl start q m (omega (arith, line, out)))

-- clearScreen changes no byte outside the frame buffer.
pub clear_screen-outside :
    (color q : ℕ) (d : Display)
    → d.canvas.lfb.ppsl * 4 < 2 ^ 32
    → d.canvas.lfb.base_addr + 4 * (d.canvas.lfb.height * d.canvas.lfb.ppsl) < 2 ^ 64
    → IsOutside d.canvas.lfb q
    → (clear_screen color d).mem q ≡ d.mem q
unfolding clear_screen
clear_screen-outside color q d narrow inside out =
    clear_lines-outside d.canvas.lfb narrow inside color q out d.canvas.lfb.height 0 d.mem
      (omega arith)
