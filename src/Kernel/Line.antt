-- ===== src/Kernel/Line.antt =====
-- Texts with a number, on a screen with room for them.
use kess_os_paranoid_edition.Base.{
  ℕ, suc, ◌+◌, ◌^◌, ◌≤◌, ◌<◌, ◌≡◌, refl, sym, arith, true, false, some, List, [], ◌∷◌, ◌==◌, u32,
}
use mathlib.Core.Path.{subst}
use kess_os_paranoid_edition.Log.{LogCall, info, int, codes}
use kess_os_paranoid_edition.Memory.{Memory}
use kess_os_paranoid_edition.Outcome.{Outcome, Cmd, and_then}
use kess_os_paranoid_edition.Screen.{Framebuffer, Font, Display, kwrite}
use kess_os_paranoid_edition.Screen.Cursor.{length, IsLine}
use kess_os_paranoid_edition.Screen.Room.{
  Agrees, Agrees-trans, newlines, column, fits, line_width, HasRoom, IsScreen, kwrite-HasRoom,
}
use kess_os_paranoid_edition.Strings.{ascii_number}
use kess_os_paranoid_edition.Strings.Number.{IsDigit}
use kess_os_paranoid_edition.Strings.Swap.{IsBytes}
use kess_os_paranoid_edition.Kernel.Console.{log, color_of, text_at, render, convert, write_hex}
use kess_os_paranoid_edition.Kernel.Numeral.{AreDigits, IsHexadecimal, hex2str-IsHexadecimal}
use kess_os_paranoid_edition.Kernel.Terminal.{Terminal, console_of, print}
use kess_os_paranoid_edition.Kernel.Drawing.{IsReady, fewer}

-- A text without a newline.
line-fits :
    (t : List ℕ) (col : ℕ)
    → IsLine t
    → col + length t ≤ line_width
    → (fits line_width t col ≡ true) × (newlines t ≡ 0)
line-fits [] col h room = (refl, refl)
line-fits (c ∷ cs) col h room =
    let (short, flat) = line-fits cs (col + 1) h.1 (omega arith) in (ground arith, ground arith)

digit_shown : (c : ℕ) → IsDigit 16 ascii_number c → c == b'\n' ≡ false
unfolding ascii_number
digit_shown c (d, h, e) = ground arith

AreDigits-IsLine : (t : List ℕ) → AreDigits 16 ascii_number t → IsLine t
AreDigits-IsLine [] h = tt
AreDigits-IsLine (c ∷ cs) h = (digit_shown c h.0, AreDigits-IsLine cs h.1)

IsHexadecimal-IsLine : (n : ℕ) (t : List ℕ) → IsHexadecimal n t → IsLine t × (length t ≤ 12)
IsHexadecimal-IsLine n t (u, e, is) =
    let narrow = is.narrow in rw e ((refl, (refl, AreDigits-IsLine u is.digits)), omega arith)

-- The message of vmm_init that shows the allocator's base.
abbrev pub base_call : ℕ → LogCall
base_call n = record {
  format = codes "Allocation base set at %x\n";
  status = info;
  args = int n ∷ [];
}

abbrev prefix : List ℕ
prefix = codes "[INFO] Allocation base set at "

log-base_call :
    (n : ℕ) (m : Memory) (t : Terminal)
    → n < 2 ^ 32
    → IsBytes t.hex_string
    → (buf : Memory) × (text : List ℕ) × (log (base_call n) (console_of m t)
        ≡ some record {
          display = kwrite (codes "\n") (color_of info) (
              kwrite text
                (color_of info)
                (kwrite prefix (color_of info) record { mem = m; canvas = t.canvas }));
          dec_string = t.dec_string;
          hex_string = buf;
        })
      × IsBytes buf
      × IsHexadecimal n text
unfolding log render convert write_hex kwrite
log-base_call n m t small bytes =
    let (buf, run, bytes', is) = hex2str-IsHexadecimal n t.hex_string bytes small in
    let same : u32 n ≡ n = omega arith in (buf, text_at 80 buf 0, rw (same, run) refl, bytes', is)

module _ (fb : Framebuffer) (screen : IsScreen fb) (face : Font) where
  -- As `after_log`, for that message.
  pub after_base :
      {S B : Type 0} (P : Outcome S B → Type 0) (n total lines : ℕ) (m : Memory) (t : Terminal)
      (s : S) (back : Memory → Terminal → S) (k : Unit {0} → Cmd S B)
      → n < 2 ^ 32
      → suc lines ≤ total
      → IsReady fb face total 0 t
      → ((m' : Memory) (t' : Terminal)
          → Agrees fb m m'
          → IsReady fb face lines 0 t'
          → P (k tt (back m' t')))
      → P (and_then (print (base_call n) m t s back) k)
  after_base P n total lines m t s back k small enough ready rest =
      let (buf, text, run, bytes, is) = log-base_call n m t small ready.bytes in
      let color = color_of info in
      let (line, len) = IsHexadecimal-IsLine n text is in
      let (short, flat) = line-fits text 30 line (omega arith) in
      let d0 : Display = record { mem = m; canvas = t.canvas } in
      let d1 = kwrite prefix color d0 in
      let d2 = kwrite text color d1 in
      let (room1, same1) =
        kwrite-HasRoom fb screen color face prefix (suc lines) 0 d0 refl
          (fewer fb face (omega arith) ready.room) in
      let (room2, same2) = kwrite-HasRoom fb screen color face text (suc lines) 30 d1 short (
        subst (λ x. HasRoom fb face (x + suc lines) 30 d1.canvas) (sym flat)
          (fewer fb face (omega arith) room1)) in
      let (room3, same3) =
        kwrite-HasRoom fb screen color face (codes "\n") lines (column text 30) d2 refl
          (fewer fb face (omega arith) room2) in
      rw run (
        rest _ _ (Agrees-trans fb same1 (Agrees-trans fb same2 same3))
          record { room = room3; bytes = bytes })
