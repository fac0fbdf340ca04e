-- ===== src/Kernel/Drawing.antt =====
-- What calls of `log` of kernel/src/kernel.c do to the memory and the cursor, on a screen with room
-- for them.
use kess_os_paranoid_edition.Base.{ℕ, ◌+◌, ◌≤◌, ◌≡◌, refl, arith, true, some, List, [], ◌++◌}
use kess_os_paranoid_edition.Log.{Arg, plain, LogCall}
use kess_os_paranoid_edition.Memory.{Memory}
use kess_os_paranoid_edition.Outcome.{Outcome, done, Cmd, and_then}
use kess_os_paranoid_edition.Screen.{Framebuffer, Font, Canvas, Display, kwrite}
use kess_os_paranoid_edition.Screen.Room.{
  Agrees, newlines, column, fits, line_width, HasRoom, IsScreen, kwrite-HasRoom,
}
use kess_os_paranoid_edition.Strings.Swap.{IsBytes}
use kess_os_paranoid_edition.Kernel.Console.{
  Console, log, label_of, color_of, is_literal, is_literal-IsLiteral, log-IsLiteral,
}
use kess_os_paranoid_edition.Kernel.Terminal.{Terminal, console_of, print}

-- The text that a call without arguments writes.
abbrev pub line : LogCall → List ℕ
line call = label_of call.status ++ call.format

-- `lines` lines are left below the cursor, and the buffer of hex2str holds bytes.
pub record IsReady (fb : Framebuffer) (face : Font) (lines col : ℕ) (t : Terminal) : Type 0 where
  pub room : HasRoom fb face lines col t.canvas
  pub bytes : IsBytes t.hex_string

-- A call of `log` on the empty format, with a level that has no label, draws nothing.
pub log-empty :
    (args : List Arg) (c : Console)
    → log (record { format = []; status = plain; args = args }) c ≡ some c
unfolding log kwrite
log-empty args c = refl

-- Room for some lines is room for fewer.
pub fewer :
    (fb : Framebuffer) (face : Font) {lines total col : ℕ} {c : Canvas}
    → lines ≤ total
    → HasRoom fb face total col c
    → HasRoom fb face lines col c
fewer fb face h r = record {
  lfb = r.lfb;
  font = r.font;
  left = r.left;
  wide = r.wide;
  below = omega (arith, r.below);
}

-- Likewise, and the cursor may be further to the left.
pub lesser :
    (fb : Framebuffer) (face : Font) {lines total col right : ℕ} {t : Terminal}
    → lines ≤ total
    → col ≤ right
    → IsReady fb face total col t
    → IsReady fb face lines right t
lesser fb face h k ready =
    let r = ready.room in
    record {
      room = record {
        lfb = r.lfb;
        font = r.font;
        left = omega (arith, r.left);
        wide = r.wide;
        below = omega (arith, r.below);
      };
      bytes = ready.bytes;
    }

module _ (fb : Framebuffer) (screen : IsScreen fb) (face : Font) where
  module _ (call : LogCall) (total lines col : ℕ) (m : Memory) (t : Terminal)
      (literal : is_literal call.format ≡ true) (short : fits line_width (line call) col ≡ true)
      (enough : newlines (line call) + lines ≤ total) (ready : IsReady fb face total col t) where
    -- A call of `log` without arguments changes the frame buffer alone, and moves the cursor.
    pub log-IsReady :
        (m' : Memory) × (t' : Terminal) × (log call (console_of m t) ≡ some (console_of m' t'))
        × Agrees fb m m'
        × IsReady fb face lines (column (line call) col) t'
    log-IsReady =
        let text = line call in
        let color = color_of call.status in
        let d : Display = record { mem = m; canvas = t.canvas } in
        let (room, same) =
          kwrite-HasRoom fb screen color face text lines col d short
            (fewer fb face enough ready.room) in
        (
          (kwrite text color d).mem,
          record {
            canvas = (kwrite text color d).canvas;
            dec_string = t.dec_string;
            hex_string = t.hex_string;
          },
          log-IsLiteral call (console_of m t) (is_literal-IsLiteral call.format literal),
          same,
          record { room = room; bytes = ready.bytes },
        )

    module _ {S B : Type 0} (P : Outcome S B → Type 0) (s : S) (back : Memory → Terminal → S) where
      -- What holds of the code behind it, from any such memory, holds of the whole.
      pub after_log :
          (k : Unit {0} → Cmd S B)
          → ((m' : Memory) (t' : Terminal)
              → Agrees fb m m'
              → IsReady fb face lines (column (line call) col) t'
              → P (k tt (back m' t')))
          → P (and_then (print call m t s back) k)
      after_log k rest =
          let (m', t', run, same, moved) = log-IsReady in rw run (rest m' t' same moved)

    module _ {S : Type 0} (P : Outcome S (Unit {0}) → Type 0) (s : S)
        (back : Memory → Terminal → S) where
      pub last_log :
          ((m' : Memory) (t' : Terminal)
            → Agrees fb m m'
            → IsReady fb face lines (column (line call) col) t'
            → P (done tt (back m' t')))
          → P (print call m t s back)
      last_log rest = let (m', t', run, same, moved) = log-IsReady in rw run (rest m' t' same moved)
