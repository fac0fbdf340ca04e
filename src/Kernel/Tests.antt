-- ===== src/Kernel/Tests.antt =====
-- Tests of `log` of kernel/src/kernel.c.
use kess_os_paranoid_edition.Base.{arith, List, ℕ, ◌≡◌, refl, Option, some, none, ◌++◌, [], ◌∷◌}
use kess_os_paranoid_edition.Log.{LogCall, info, plain, codes, text, int}
use kess_os_paranoid_edition.Screen.{Framebuffer, Font, Display, kwrite, clear_screen}
use kess_os_paranoid_edition.Screen.Room.{Agrees, HasRoom, kwrite-HasRoom}
use kess_os_paranoid_edition.Vmm
use kess_os_paranoid_edition.Vmm.Tests.{terminal, lfb-IsScreen, lfb-IsReady}
use kess_os_paranoid_edition.Strings.{dec2str, hex2str, dec_loop, hex_loop}
use kess_os_paranoid_edition.Kernel.Console.{Console, log, label_of, color_of}
use kess_os_paranoid_edition.Kernel.Format.{
  HasBytes, Formats, Accepts, one, skips, takes, a_string, an_int, bits, log-Formats,
}
use kess_os_paranoid_edition.Kernel.Numeral.{IsHexadecimal}
use kess_os_paranoid_edition.Kernel.Panic.{panic}
use kess_os_paranoid_edition.Kernel.PanicText.{notice, panic-IsHexadecimal}

-- A screen of no height: only the cursor moves.
abbrev lfb : Framebuffer
lfb = record { base_addr = 0; buffer_size = 0; width = 0; height = 400; ppsl = 0 }

abbrev font : Font
font = record { magic0 = 0x36; magic1 = 4; mode = 0; chsize = 16; glyph_buffer = 0 }

abbrev console : Console
console = record {
  display = record {
    mem = λ q. 0;
    canvas = record { x = 0; y = 55; prev_x = 0; lfb = lfb; font = font };
  };
  dec_string = λ q. 0;
  hex_string = λ q. 0;
}

abbrev zeros : HasBytes console
zeros = record { decimals = λ q. omega arith; hexadecimals = λ q. omega arith }

-- A string, a negative number and an address.
abbrev numbers : LogCall
numbers = record {
  format = codes "%s=%d %x\n";
  status = info;
  args = text (codes "n") ∷ int 0xFFFFFFF9 ∷ int 255 ∷ [];
}

numbers-Accepts : Accepts numbers.format numbers.args
numbers-Accepts = takes refl (a_string _ refl) (
    skips refl (
      takes refl (an_int 0xFFFFFFF9 refl (omega arith))
        (skips refl (takes refl (bits 255 refl) one))))

log-Formats_example :
    (out : List ℕ) × (after : Console) × (log numbers console ≡ some after)
    × Formats numbers.format numbers.args out
    × (after.display
        ≡ kwrite (label_of numbers.status ++ out) (color_of numbers.status) console.display)
    × HasBytes after
log-Formats_example = log-Formats numbers console zeros numbers-Accepts

panic-IsHexadecimal_example :
    (t : List ℕ) × (last : Console) × (panic 14 console ≡ some last)
    × IsHexadecimal 14 t
    × (last.display
        ≡ kwrite (t ++ (codes "\n\n" ++ notice)) 0xFFFFFF (
            kwrite
              (codes "** KERNEL PANIC **\nVECTOR FIRED: ")
              0xFF0000
              (clear_screen 0x212E52 console.display)))
panic-IsHexadecimal_example = panic-IsHexadecimal 14 console zeros (omega arith)

abbrev shown : Display
shown = record { mem = λ q. 0; canvas = terminal.canvas }

kwrite-HasRoom_example :
    HasRoom Vmm.Tests.lfb Vmm.Tests.font 22 0 (kwrite (codes "ab\n") 0xFFFFFF shown).canvas
    × Agrees Vmm.Tests.lfb shown.mem (kwrite (codes "ab\n") 0xFFFFFF shown).mem
kwrite-HasRoom_example =
    kwrite-HasRoom Vmm.Tests.lfb lfb-IsScreen 0xFFFFFF Vmm.Tests.font (codes "ab\n") 22 0 shown refl
      lfb-IsReady.room

column : Option Console → ℕ
column none = 9999
column (some c) = c.display.canvas.x

-- `%d` of -7 and `%x` of 255 are 6 columns of the 10.
widths :
    (column (
        log
          (record {
            format = codes "a%d%xb%s";
            status = plain;
            args = int 0xFFFFFFF9 ∷ int 255 ∷ text (codes "cd") ∷ [];
          })
          console)
      ≡ 80)
    × (column (log (record { format = codes "%d"; status = plain; args = [] }) console) ≡ 9999)
unfolding column log kwrite dec2str hex2str dec_loop hex_loop
widths = (refl, refl)
