-- ===== src/Screen/Room.antt =====
-- Where `kwrite` of kernel/src/drivers/video/impl/FrameBuffer.c draws, while lines are left below
-- the cursor.
use kess_os_paranoid_edition.Base.{
  ℕ, zero, suc, ◌+◌, ◌-◌, ◌*◌, ◌^◌, ◌≤◌, ◌<◌, ◌≡◌, refl, ap, ◌∙◌, arith, Bool, true, false,
  Bool-cases, inl, inr, List, [], ◌∷◌, leb, ltb, ◌==◌, if◌then◌else◌, u32,
}
use mathlib.Core.Path.{subst}
use kess_os_paranoid_edition.Memory.{Memory}
use kess_os_paranoid_edition.Screen.{
  Framebuffer, Font, Canvas, Display, glyph, put_rows, put_char, kwrite_char, kwrite, wrapped,
}
use kess_os_paranoid_edition.Screen.Pixels.{IsPlaced}
use kess_os_paranoid_edition.Screen.Glyph.{IsOutside, put_row-outside}

-- Two memories differ at most within the frame buffer.
abbrev pub Agrees : Framebuffer → Memory → Memory → Type 0
Agrees fb m m' = (q : ℕ) → IsOutside fb q → m' q ≡ m q

pub Agrees-trans :
    (fb : Framebuffer) {m m' m'' : Memory} → Agrees fb m m' → Agrees fb m' m'' → Agrees fb m m''
Agrees-trans fb a b q out = b q out ∙ a q out

-- The lines that a text ends, and the column behind it if it starts in column `col`.
abbrev pub newlines : List ℕ → ℕ
newlines [] = 0
newlines (chr ∷ chrs) = (if chr == b'\n' then 1 else 0) + newlines chrs

abbrev pub column : List ℕ → ℕ → ℕ
column [] col = col
column (chr ∷ chrs) col = column chrs (if chr == b'\n' then 0 else col + 1)

-- No line is longer than `width` characters.
abbrev pub fits : ℕ → List ℕ → ℕ → Bool
fits width [] col = true
fits width (chr ∷ chrs) col =
    if chr == b'\n'
    then fits width chrs 0
    else if ltb col width
    then fits width chrs (col + 1)
    else false

-- The longest line that the kernel writes at its start is shorter.
abbrev pub line_width : ℕ
line_width = 100

-- `lines` lines are left below the cursor, which is at most in column `col` of text.
pub record HasRoom (fb : Framebuffer) (face : Font) (lines col : ℕ) (c : Canvas) : Type 0 where
  pub lfb : c.lfb ≡ fb
  pub font : c.font ≡ face
  pub left : c.x ≤ c.prev_x + 8 * col
  pub wide : c.prev_x + 8 * line_width ≤ fb.ppsl
  pub below : c.y + 20 * lines + 16 ≤ fb.height

-- A frame buffer whose numbers are those of a screen.
pub record IsScreen (fb : Framebuffer) : Type 0 where
  pub placed : IsPlaced fb
  pub inside : fb.base_addr + 4 * (fb.height * fb.ppsl) < 2 ^ 64
  pub columns : fb.ppsl * 4 < 2 ^ 32
  pub rows : fb.height < 2 ^ 32

module _ (fb : Framebuffer) (screen : IsScreen fb) (color : ℕ) where
  put_rows-outside :
      (left fp x_off y q : ℕ) (m : Memory)
      → x_off + 8 ≤ fb.ppsl
      → y + left ≤ fb.height
      → IsOutside fb q
      → put_rows fb color left fp x_off y m q ≡ m q
  unfolding put_rows
  put_rows-outside zero fp x_off y q m hx hy out = refl
  put_rows-outside (suc left) fp x_off y q m hx hy out =
      let few : u32 (x_off + 8) - x_off ≤ 8 = omega arith in
      put_rows-outside left _ x_off (y + 1) q _ hx (omega arith) out
      ∙ put_row-outside fb screen.placed color (u32 (x_off + 8) - x_off) fp x_off y x_off q m
          (omega arith) (omega arith) out

  -- A character whose box lies on the screen changes nothing but the frame buffer.
  put_char-Agrees :
      (font : Font) (chr x y : ℕ) (m : Memory)
      → x + 8 ≤ fb.ppsl
      → y + 16 ≤ fb.height
      → Agrees fb m (put_char fb font color chr x y m)
  unfolding put_char
  put_char-Agrees font chr x y m hx hy q out =
      let few : u32 (y + 16) - y ≤ 16 = omega arith in
      put_rows-outside (u32 (y + 16) - y) (glyph font chr) x y q m hx (omega arith) out

  module _ (font : Font) where
    newline-HasRoom :
        (lines col : ℕ) (c : Canvas)
        → HasRoom fb font (suc lines) col c
        → HasRoom fb font lines 0 (record c { x = c.prev_x; y = u32 (c.y + 20) })
    newline-HasRoom lines col c r =
        let rows = screen.rows in
        let below = r.below in
        record {
          lfb = r.lfb;
          font = r.font;
          left = omega arith;
          wide = r.wide;
          below = omega (arith, r.below);
        }

    stays : (lines col : ℕ) (c : Canvas) → HasRoom fb font lines col c → wrapped c ≡ c
    stays lines col c r =
        let below = r.below in
        let high : c.lfb.height ≡ fb.height = ap Framebuffer.height r.lfb in
        let above : leb c.lfb.height c.y ≡ false = ground arith in rw above refl

    -- One character that is not a newline.
    shown-HasRoom :
        (lines col chr : ℕ) (d : Display)
        → chr == b'\n' ≡ false
        → col < line_width
        → HasRoom fb font lines col d.canvas
        → HasRoom fb font lines (col + 1) (kwrite_char color chr d).canvas
          × Agrees fb d.mem (kwrite_char color chr d).mem
    unfolding kwrite_char
    shown-HasRoom lines col chr d shown narrow r =
        let left = r.left in
        let wide = r.wide in
        let columns = screen.columns in
        rw (shown, stays lines col d.canvas r)
          (
            record {
              lfb = r.lfb;
              font = r.font;
              left = omega arith;
              wide = r.wide;
              below = r.below;
            },
            rw (r.lfb) (
                put_char-Agrees d.canvas.font chr d.canvas.x d.canvas.y d.mem (omega arith)
                  (omega (arith, r.below))),
          )

    newline_char :
        (chr : ℕ) (d : Display)
        → chr == b'\n' ≡ true
        → kwrite_char color chr d
          ≡ record d { canvas = record d.canvas { x = d.canvas.prev_x; y = u32 (d.canvas.y + 20) } }
    unfolding kwrite_char
    newline_char chr d end = rw end refl

    -- On a frame buffer that ends within the address space, kwrite of a text that has no line
    -- longer than 100 characters and no more newlines than lines are left below the cursor changes
    -- no byte outside the frame buffer, and leaves the other lines and the cursor in its column.
    pub kwrite-HasRoom :
        (chrs : List ℕ) (lines col : ℕ) (d : Display)
        → fits line_width chrs col ≡ true
        → HasRoom fb font (newlines chrs + lines) col d.canvas
        → HasRoom fb font lines (column chrs col) (kwrite chrs color d).canvas
          × Agrees fb d.mem (kwrite chrs color d).mem
    unfolding kwrite
    kwrite-HasRoom [] lines col d short r =
        (subst (λ n. HasRoom fb font n col d.canvas) (omega arith) r, λ q out. refl)
    kwrite-HasRoom (chr ∷ chrs) lines col d short r = elim (Bool-cases (chr == b'\n')) [
      | inl end ↦
          let budget : newlines (chr ∷ chrs) + lines ≡ suc (newlines chrs + lines) = ground arith in
          let first =
            newline-HasRoom (newlines chrs + lines) col d.canvas
              (subst (λ n. HasRoom fb font n col d.canvas) budget r) in
          let same : Agrees fb d.mem (kwrite_char color chr d).mem =
            rw (newline_char chr d end) (λ q out. refl) in
          let (rest, same') =
            kwrite-HasRoom chrs lines 0 (kwrite_char color chr d) (ground arith)
              (rw (newline_char chr d end) first) in
          rw end (rest, Agrees-trans fb same same')
      | inr shown ↦
          let budget : newlines (chr ∷ chrs) + lines ≡ newlines chrs + lines = ground arith in
          let (first, same) =
            shown-HasRoom (newlines chrs + lines) col chr d shown (ground arith)
              (subst (λ n. HasRoom fb font n col d.canvas) budget r) in
          let (rest, same') =
            kwrite-HasRoom chrs lines (col + 1) (kwrite_char color chr d) (ground arith) first in
          rw shown (rest, Agrees-trans fb same same')
    ]
