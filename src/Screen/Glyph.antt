-- ===== src/Screen/Glyph.antt =====
-- The pixels that `putChar` of kernel/src/drivers/video/impl/FrameBuffer.c sets.
use kess_os_paranoid_edition.Base.{
  ℕ, zero, suc, ◌+◌, ◌-◌, ◌*◌, ◌%◌, ◌^◌, ◌≤◌, ◌<◌, ◌≡◌, ◌≢◌, refl, ap, ◌∙◌, arith, Bool, true,
  false, leb, ltb, ◌==◌, Bool-cases, ◌&&◌, if◌then◌else◌, u32, u64, ◌⊎◌, inl, inr, bit_and, ◌>>>◌,
}
use mathlib.Core.Path.{subst}
use kess_os_paranoid_edition.Memory.{Memory, load32, store32}
use kess_os_paranoid_edition.Memory.Laws.{Apart}
use kess_os_paranoid_edition.Screen.{
  Framebuffer, Font, pixel, is_lit, put_row, put_rows, put_char, glyph,
}
use kess_os_paranoid_edition.Screen.Pixels.{
  IsPlaced, pixel_lem, line_before, store32-outside, store_pixel_lem,
}

-- A byte that is no part of the frame buffer.
abbrev pub IsOutside : Framebuffer → ℕ → Type 0
IsOutside fb q = q < fb.base_addr ⊎ fb.base_addr + 4 * (fb.height * fb.ppsl) ≤ q

-- One column more in front of those that are drawn, as conditions on a pixel.
first_column :
    (py y px x left c v : ℕ) (L K : Bool)
    → (px ≡ x → L ≡ K)
    → (if (py == y && leb (x + 1) px && ltb px (x + 1 + left)) && L
        then c
        else if (py == y && px == x) && K
        then c
        else v)
      ≡ (if (py == y && leb x px && ltb px (x + suc left)) && L then c else v)
first_column py y px x left c v true true h = ground arith
first_column py y px x left c v false false h = ground arith
first_column py y px x left c v true false h =
    let ne : px ≢ x = λ e. ground (arith, h e) in ground arith
first_column py y px x left c v false true h =
    let ne : px ≢ x = λ e. ground (arith, h e) in ground arith

module _ (fb : Framebuffer) (placed : IsPlaced fb) (color : ℕ) where
  pixel-IsOutside :
      (x y q : ℕ) → x < fb.ppsl → y < fb.height → IsOutside fb q → Apart (pixel fb x y) 4 q 1
  pixel-IsOutside x y q hx hy out =
      rw (pixel_lem fb placed x y hx hy) (ground (arith, line_before fb placed y fb.height hy, out))

  -- One column of a row.
  abbrev put_column : ℕ → ℕ → ℕ → ℕ → Memory → Memory
  put_column fp column y x m = if is_lit m fp column then store32 m (pixel fb x y) color else m

  put_column-outside :
      (fp column y x q : ℕ) (m : Memory)
      → x < fb.ppsl
      → y < fb.height
      → IsOutside fb q
      → put_column fp column y x m q ≡ m q
  put_column-outside fp column y x q m hx hy out = elim (Bool-cases (is_lit m fp column)) [
    | inl lit ↦ rw lit (store32-outside m (pixel fb x y) color q (pixel-IsOutside x y q hx hy out))
    | inr dark ↦ rw dark refl
  ]

  module _ (px py : ℕ) (hpx : px < fb.ppsl) (hpy : py < fb.height) where
    -- The word at the pixel.
    abbrev at : Memory → ℕ
    at m = load32 m (pixel fb px py)

    put_column_lem :
        (fp column y x : ℕ) (m : Memory)
        → x < fb.ppsl
        → y < fb.height
        → at (put_column fp column y x m)
          ≡ (if (py == y && px == x) && is_lit m fp column then color % 2 ^ 32 else at m)
    put_column_lem fp column y x m hx hy = elim (Bool-cases (is_lit m fp column)) [
      | inr dark ↦ rw dark (ground arith)
      | inl lit ↦ rw lit (store_pixel_lem fb placed color px py hpx hpy x y m hx hy ∙ ground arith)
    ]

    put_row_lem :
        (left fp x_off y x : ℕ) (m : Memory)
        → x + left ≤ fb.ppsl
        → y < fb.height
        → IsOutside fb fp
        → at (put_row fb color left fp x_off y x m) ≡ (
            if (py == y && leb x px && ltb px (x + left)) && is_lit m fp (px - x_off)
            then color % 2 ^ 32
            else at m)
    unfolding put_row
    put_row_lem zero fp x_off y x m hx hy out = ground arith
    put_row_lem (suc left) fp x_off y x m hx hy out =
        let next = put_column fp (x - x_off) y x m in
        let kept : next fp ≡ m fp =
          put_column-outside fp (x - x_off) y x fp m (omega arith) hy out in
        put_row_lem left fp x_off y (x + 1) next (omega arith) hy out
        ∙ ap
            (λ b.
              if (py == y && leb (x + 1) px && ltb px (x + 1 + left))
                && ltb 0 (bit_and b (0x80 >>> (px - x_off)))
              then color % 2 ^ 32
              else at next)
            kept
        ∙ ap
            (λ v.
              if (py == y && leb (x + 1) px && ltb px (x + 1 + left)) && is_lit m fp (px - x_off)
              then color % 2 ^ 32
              else v)
            (put_column_lem fp (x - x_off) y x m (omega arith) hy)
        ∙ first_column py y px x left (color % 2 ^ 32) (at m) (is_lit m fp (px - x_off))
            (is_lit m fp (x - x_off)) (λ e. ap (λ t. is_lit m fp (t - x_off)) e)

  pub put_row-outside :
      (left fp x_off y x q : ℕ) (m : Memory)
      → x + left ≤ fb.ppsl
      → y < fb.height
      → IsOutside fb q
      → put_row fb color left fp x_off y x m q ≡ m q
  unfolding put_row
  put_row-outside zero fp x_off y x q m hx hy out = refl
  put_row-outside (suc left) fp x_off y x q m hx hy out =
      put_row-outside left fp x_off y (x + 1) q (put_column fp (x - x_off) y x m) (omega arith) hy
        out
      ∙ put_column-outside fp (x - x_off) y x q m (omega arith) hy out

  module _ (px py x_off : ℕ) (hpx : px < fb.ppsl) (hpy : py < fb.height) (hx : x_off + 8 ≤ fb.ppsl)
      (no_wrap : x_off + 8 < 2 ^ 32) where
    -- What `left` rows from `y` on make of the pixel.
    abbrev pub drawn : ℕ → ℕ → ℕ → Memory → ℕ
    drawn left fp y m =
        if (leb y py && ltb py (y + left))
          && leb x_off px
          && ltb px (x_off + 8)
          && is_lit m (fp + (py - y)) (px - x_off)
        then color % 2 ^ 32
        else load32 m (pixel fb px py)

    module _ (left fp y : ℕ) (m : Memory) (hy : y < fb.height) (out : IsOutside fb fp) where
      abbrev row : Memory
      row = put_row fb color (u32 (x_off + 8) - x_off) fp x_off y x_off m

      row_lem : load32 row (pixel fb px py) ≡ (
          if (py == y && leb x_off px && ltb px (x_off + 8)) && is_lit m fp (px - x_off)
          then color % 2 ^ 32
          else load32 m (pixel fb px py))
      row_lem =
          let width : u32 (x_off + 8) - x_off ≡ 8 = omega arith in
          rw width (put_row_lem px py hpx hpy 8 fp x_off y x_off m hx hy out)

      row-outside : (q : ℕ) → IsOutside fb q → row q ≡ m q
      row-outside q q_out =
          let width : u32 (x_off + 8) - x_off ≡ 8 = omega arith in
          rw width (put_row-outside 8 fp x_off y x_off q m hx hy q_out)

      -- One row more in front of those that are drawn.
      first_row :
          ((k : ℕ) → k < suc left → IsOutside fb (fp + k))
          → drawn left (fp + 1) (y + 1) row ≡ drawn (suc left) fp y m
      first_row font = elim (Bool-cases (leb (y + 1) py && ltb py (y + 1 + left))) [
        | inl later ↦
            let same : fp + 1 + (py - (y + 1)) ≡ fp + (py - y) = ground arith in
            let q_out : IsOutside fb (fp + (py - y)) = font (py - y) (ground arith) in
            let byte : row (fp + 1 + (py - (y + 1))) ≡ m (fp + (py - y)) =
              ap row same ∙ row-outside (fp + (py - y)) q_out in
            ap
              (λ b.
                if (leb (y + 1) py && ltb py (y + 1 + left))
                  && leb x_off px
                  && ltb px (x_off + 8)
                  && ltb 0 (bit_and b (0x80 >>> (px - x_off)))
                then color % 2 ^ 32
                else load32 row (pixel fb px py))
              byte
            ∙ ground (arith, row_lem)
        | inr not_later ↦ elim (Bool-cases (py == y)) [
          | inl here ↦
              let byte : m fp ≡ m (fp + (py - y)) = ap m (ground arith) in
              rw not_later (
                row_lem
                ∙ ap
                    (λ b.
                      if (py == y && leb x_off px && ltb px (x_off + 8))
                        && ltb 0 (bit_and b (0x80 >>> (px - x_off)))
                      then color % 2 ^ 32
                      else load32 m (pixel fb px py))
                    byte
                ∙ ground arith)
          | inr other ↦ rw not_later (row_lem ∙ ground arith)
        ]
      ]

    put_rows_lem :
        (left fp y : ℕ) (m : Memory)
        → y + left ≤ fb.height
        → fp + left < 2 ^ 64
        → ((k : ℕ) → k < left → IsOutside fb (fp + k))
        → load32 (put_rows fb color left fp x_off y m) (pixel fb px py) ≡ drawn left fp y m
    unfolding put_rows
    put_rows_lem zero fp y m hy hf font = ground arith
    put_rows_lem (suc left) fp y m hy hf font =
        let here : fp + 0 ≡ fp = omega arith in
        let next : u64 (fp + 1) ≡ fp + 1 = omega arith in
        let out : IsOutside fb fp = subst (IsOutside fb) here (font 0 (omega arith)) in
        rw next (
          put_rows_lem left (fp + 1) (y + 1) (row left fp y m (omega arith) out) (omega arith)
            (omega arith) (λ k h. subst (IsOutside fb) (above fp k) (font (suc k) (omega arith)))
          ∙ first_row left fp y m (omega arith) out font)
      where
        above : (fp k : ℕ) → fp + suc k ≡ fp + 1 + k
        above fp k = omega arith

    -- On a frame buffer within the address space, for a box of 8 by 16 within its lines and height
    -- and a glyph of 16 bytes outside the frame buffer, putChar gives exactly the pixels of the
    -- box whose bit the glyph has set the colour, and leaves every other pixel.
    pub put_char_lem :
        (font : Font) (chr y_off : ℕ) (m : Memory)
        → y_off + 16 ≤ fb.height
        → y_off + 16 < 2 ^ 32
        → glyph font chr + 16 < 2 ^ 64
        → ((k : ℕ) → k < 16 → IsOutside fb (glyph font chr + k))
        → load32 (put_char fb font color chr x_off y_off m) (pixel fb px py)
          ≡ drawn 16 (glyph font chr) y_off m
    unfolding put_char
    put_char_lem font chr y_off m hy no_wrap_y hf out =
        let rows : u32 (y_off + 16) - y_off ≡ 16 = omega arith in
        rw rows (put_rows_lem 16 (glyph font chr) y_off m hy hf out)
