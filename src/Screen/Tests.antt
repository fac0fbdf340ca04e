-- ===== src/Screen/Tests.antt =====
-- Tests of kernel/src/drivers/video on a small screen.
use kess_os_paranoid_edition.Base.{
  ℕ, ◌+◌, ◌*◌, ◌%◌, ◌^◌, ◌≤◌, ◌≡◌, refl, arith, ltb, if◌then◌else◌, inl,
}
use kess_os_paranoid_edition.Log.{codes}
use kess_os_paranoid_edition.Memory.{Memory, load32, load16}
use kess_os_paranoid_edition.Screen.{
  Framebuffer, Font, Display, pixel, glyph, put_char, draw_square, kwrite_char, kwrite,
  clear_screen,
}
use kess_os_paranoid_edition.Screen.Pixels.{IsPlaced}
use kess_os_paranoid_edition.Screen.Glyph.{drawn, put_char_lem}
use kess_os_paranoid_edition.Screen.Overrun.{kwrite_char-overruns}
use kess_os_paranoid_edition.Screen.Clear.{IsCleared, clear_screen-IsCleared}

abbrev lfb : Framebuffer
lfb = record { base_addr = 0x1000; buffer_size = 960; width = 10; height = 20; ppsl = 12 }

abbrev font : Font
font = record { magic0 = 0x36; magic1 = 4; mode = 0; chsize = 16; glyph_buffer = 0x100 }

-- Every glyph is two columns wide, at 3 and 4.
abbrev bars : Memory
bars q = if ltb q 0x1000 then 0x18 else 0

abbrev display : Display
display = record {
  mem = bars;
  canvas = record { x = 0; y = 18; prev_x = 0; lfb = lfb; font = font };
}

lfb-IsPlaced : IsPlaced lfb
lfb-IsPlaced = record { fits = omega arith }

put_char_example :
    load32 (put_char lfb font 0xFF00 b'A' 2 1 bars) (pixel lfb 5 9)
    ≡ drawn lfb lfb-IsPlaced 0xFF00 5 9 2
        (omega arith)
        (omega arith)
        (omega arith)
        (omega arith)
        16
        (glyph font b'A')
        1
        bars
unfolding glyph
put_char_example =
    put_char_lem lfb lfb-IsPlaced 0xFF00 5 9 2 (omega arith) (omega arith) (omega arith)
      (omega arith) font b'A' 1 bars (omega arith) (omega arith) (omega arith)
      (λ k h. inl (omega arith))

-- Column 3 of the glyph is set, column 2 is not.
pixels :
    (load32 (put_char lfb font 0xFF00 b'A' 2 1 bars) (pixel lfb 5 9) ≡ 0xFF00)
    × (load32 (put_char lfb font 0xFF00 b'A' 2 1 bars) (pixel lfb 4 9) ≡ 0)
    × (load32 (draw_square display.canvas 1 2 3 1 7 bars) (pixel lfb 3 2) ≡ 7)
    × (load32 (draw_square display.canvas 1 2 3 1 7 bars) (pixel lfb 4 2) ≡ 0)
unfolding load32 load16 put_char draw_square
pixels = (refl, refl, refl, refl)

clear_screen-IsCleared_example : IsCleared 0x212E52 display (clear_screen 0x212E52 display)
clear_screen-IsCleared_example = clear_screen-IsCleared 0x212E52 display (omega arith) (omega arith)

-- After the screen's last line the text goes on in a column to the right, but only the next newline
-- moves there.
cursor : Display → ℕ × ℕ × ℕ
cursor d = (d.canvas.x, d.canvas.y, d.canvas.prev_x)

columns : cursor (kwrite (codes "a\nb\nc") 7 display) ≡ (308, 10, 600)
unfolding cursor kwrite
columns = refl

-- The glyph's rows from the third on lie past the last line.
kwrite_char-overruns_example :
    (p : ℕ) × (lfb.base_addr + 4 * (lfb.height * lfb.ppsl) ≤ p)
    × (load32 (kwrite_char 7 b'A' display).mem p ≡ 7 % 2 ^ 32)
unfolding glyph
kwrite_char-overruns_example =
    kwrite_char-overruns 7 b'A' 5 3 display refl (omega arith) (omega arith) (omega arith)
      (omega arith) (omega arith) (omega arith) (omega arith) (record { fits = omega arith })
      (omega arith) (λ k h. inl (omega arith)) refl
