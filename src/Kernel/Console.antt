-- ===== src/Kernel/Console.antt =====
-- `log` of kernel/src/kernel.c.
use kess_os_paranoid_edition.Base.{
  ℕ, zero, suc, ◌+◌, ◌-◌, ◌^◌, Bool, true, false, Option, none, some, List, [], ◌∷◌, ◌++◌, ◌==◌,
  ltb, if◌then◌else◌, u32, ◌≡◌, refl, ap, sym, ◌∙◌, ◌&&◌, not, arith,
}
use kess_os_paranoid_edition.Log.{
  Status, warning, info, critical, panic, plain, Arg, text, int, LogCall, codes,
}
use kess_os_paranoid_edition.Memory.{Memory}
use kess_os_paranoid_edition.Screen.{Display, kwrite, kwrite_char}
use kess_os_paranoid_edition.Strings.{ℤ, pos, negsuc, dec2str, hex2str}

-- The screen and the static buffers of `dec2str` and `hex2str`.
pub record Console : Type 0 where
  pub display : Display
  pub dec_string : Memory
  pub hex_string : Memory

abbrev pub write : List ℕ → ℕ → Console → Console
write chrs color c = record c { display = kwrite chrs color c.display }

-- The colour of a text, and its label.
abbrev pub color_of : Status → ℕ
color_of warning = 0x800080
color_of info = 0x00FF00
color_of panic = 0xFF0000
color_of critical = 0xFF0000
color_of plain = 0xFFFFFF

abbrev pub label_of : Status → List ℕ
label_of warning = codes "[WARNING] "
label_of info = codes "[INFO] "
label_of panic = codes "** KERNEL PANIC **\n"
label_of critical = codes "[CRITICAL] "
label_of plain = []

-- An `int` from its 32 bits.
abbrev pub signed : ℕ → ℤ
signed n = if ltb n (2 ^ 31) then pos n else negsuc (2 ^ 32 - 1 - n)

-- The bytes of a static buffer up to its NUL: its 80 bytes hold every number.
unfoldable pub text_at : ℕ → Memory → ℕ → List ℕ
text_at zero m i = []
text_at (suc left) m i = let rest = text_at left m (i + 1) in if m i == 0 then [] else m i ∷ rest

-- A conversion writes its argument; `none` where the argument is missing or of the other kind,
-- which C leaves undefined, and where `dec2str` overflows.
unfoldable pub write_string : Arg → ℕ → Console → Option Console
write_string (text s) color c = some (write s color c)
write_string (int n) color c = none

unfoldable pub write_dec : Arg → ℕ → Console → Option Console
unfolding text_at
write_dec (text s) color c = none
write_dec (int n) color c = elim (dec2str (signed (u32 n)) c.dec_string) [
  | none ↦ none
  | some buf ↦ some (write (text_at 80 buf 0) color (record c { dec_string = buf }))
]

unfoldable pub write_hex : Arg → ℕ → Console → Option Console
unfolding text_at
write_hex (text s) color c = none
write_hex (int n) color c = elim (hex2str (u32 n) c.hex_string) [
  | none ↦ none
  | some buf ↦ some (write (text_at 80 buf 0) color (record c { hex_string = buf }))
]

abbrev pub is_conversion : ℕ → Bool
is_conversion chr = if chr == b's' then true else if chr == b'd' then true else chr == b'x'

unfoldable pub convert : ℕ → Arg → ℕ → Console → Option Console
unfolding write_string write_dec write_hex
convert chr arg color c =
    if chr == b's'
    then write_string arg color c
    else if chr == b'd'
    then write_dec arg color c
    else write_hex arg color c

-- The second loop of `log`: a `%` that starts no conversion is written as it is.
unfoldable pub render : List ℕ → List Arg → ℕ → Console → Option Console
unfolding convert
render [] args color c = some c
render (chr ∷ []) args color c = some (write (chr ∷ []) color c)
render (chr ∷ next ∷ rest) args color c =
    if chr == b'%' && is_conversion next
    then (elim args [
      | [] ↦ none
      | arg ∷ args' ↦ elim (convert next arg color c) [
        | none ↦ none
        | some c' ↦ render rest args' color c'
      ]
    ])
    else render (next ∷ rest) args color (write (chr ∷ []) color c)

-- The first loop of `log` only counts arguments into `status`, which is not read again.
unfoldable pub log : LogCall → Console → Option Console
unfolding render
log call c =
    render call.format call.args (color_of call.status)
      (write (label_of call.status) (color_of call.status) c)

-- A text without a `%`.
abbrev pub IsLiteral : List ℕ → Type 0
IsLiteral [] = Unit {0}
IsLiteral (chr ∷ rest) = (chr == b'%' ≡ false) × IsLiteral rest

abbrev pub is_literal : List ℕ → Bool
is_literal [] = true
is_literal (chr ∷ rest) = not (chr == b'%') && is_literal rest

pub is_literal-IsLiteral : (chrs : List ℕ) → is_literal chrs ≡ true → IsLiteral chrs
is_literal-IsLiteral [] h = tt
is_literal-IsLiteral (chr ∷ rest) h = (ground arith, is_literal-IsLiteral rest (ground arith))

pub kwrite-append :
    (xs ys : List ℕ) (color : ℕ) (d : Display)
    → kwrite (xs ++ ys) color d ≡ kwrite ys color (kwrite xs color d)
unfolding kwrite
kwrite-append [] ys color d = refl
kwrite-append (x ∷ xs) ys color d = kwrite-append xs ys color (kwrite_char color x d)

render-IsLiteral :
    (chrs : List ℕ) (args : List Arg) (color : ℕ) (c : Console)
    → IsLiteral chrs
    → render chrs args color c ≡ some (write chrs color c)
unfolding render kwrite
render-IsLiteral [] args color c h = refl
render-IsLiteral (chr ∷ []) args color c h = refl
render-IsLiteral (chr ∷ next ∷ rest) args color c h =
    rw (h.0) (render-IsLiteral (next ∷ rest) args color (write (chr ∷ []) color c) h.1)

-- log of a format without a percent sign writes the label of its level and the text to the screen,
-- in the colour of the level.
pub log-IsLiteral :
    (call : LogCall) (c : Console)
    → IsLiteral call.format
    → log call c
      ≡ some (record c {
        display = kwrite (label_of call.status ++ call.format) (color_of call.status) c.display;
      })
unfolding log
log-IsLiteral call c h =
    render-IsLiteral call.format call.args (color_of call.status) _ h
    ∙ ap (λ d. some (record c { display = d }))
        (sym (kwrite-append (label_of call.status) call.format (color_of call.status) c.display))
