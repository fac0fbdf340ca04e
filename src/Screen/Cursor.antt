-- ===== src/Screen/Cursor.antt =====
-- Where `kwrite` of kernel/src/drivers/video/impl/FrameBuffer.c leaves the text cursor.
use kess_os_paranoid_edition.Base.{ℕ, suc, ◌+◌, ◌≡◌, false, ◌==◌, List, [], ◌∷◌, u32}
use kess_os_paranoid_edition.Screen.{Canvas}

abbrev pub length : List ℕ → ℕ
length [] = 0
length (chr ∷ chrs) = suc (length chrs)

-- A text without a newline.
abbrev pub IsLine : List ℕ → Type 0
IsLine [] = Unit {0}
IsLine (chr ∷ chrs) = (chr == b'\n' ≡ false) × IsLine chrs

module _ (color : ℕ) where
  moved : Canvas → Canvas
  moved c = record c { x = u32 (c.x + 8) }
