-- ===== src/Kernel/Format.antt =====
-- The text that `log` of kernel/src/kernel.c makes of a format and its arguments.
use kess_os_paranoid_edition.Base.{
  ℕ, ◌≡◌, refl, sym, ap, ◌∙◌, arith, true, false, some, List, [], ◌∷◌, ◌++◌, ◌&&◌, ◌==◌, u32,
}
use kess_os_paranoid_edition.Log.{LogCall, Arg, text, int}
use kess_os_paranoid_edition.Screen.{kwrite}
use kess_os_paranoid_edition.Strings.Swap.{IsBytes}
use kess_os_paranoid_edition.Kernel.Console.{
  Console, write, color_of, label_of, signed, text_at, is_conversion, convert, render, log,
  write_dec, write_hex, kwrite-append,
}
use kess_os_paranoid_edition.Kernel.Numeral.{
  IsDecimal, IsHexadecimal, IsInt, dec2str-IsDecimal, hex2str-IsHexadecimal,
}

-- The text that a conversion makes of its argument.
pub data Converts : ℕ → Arg → List ℕ → Type 0 where
  string : {chr : ℕ} {s : List ℕ} → chr ≡ b's' → Converts chr (text s) s
  decimal :
      {chr n : ℕ} {t : List ℕ} → chr ≡ b'd' → IsDecimal (signed (u32 n)) t → Converts chr (int n) t
  hexadecimal :
      {chr n : ℕ} {t : List ℕ} → chr ≡ b'x' → IsHexadecimal (u32 n) t → Converts chr (int n) t

-- The text that a format makes of its arguments: those that are left over are not looked at.
pub data Formats : List ℕ → List Arg → List ℕ → Type 0 where
  ends : {args : List Arg} → Formats [] args []
  final : {chr : ℕ} {args : List Arg} → Formats (chr ∷ []) args (chr ∷ [])
  literal :
      {chr next : ℕ} {rest out : List ℕ} {args : List Arg}
      → chr == b'%' && is_conversion next ≡ false
      → Formats (next ∷ rest) args out
      → Formats (chr ∷ next ∷ rest) args (chr ∷ out)
  conversion :
      {chr next : ℕ} {rest t out : List ℕ} {arg : Arg} {args : List Arg}
      → chr ≡ b'%'
      → Converts next arg t
      → Formats rest args out
      → Formats (chr ∷ next ∷ rest) (arg ∷ args) (t ++ out)

-- An argument of the kind that a conversion asks for; not INT_MIN, which dec2str cannot negate.
pub data Takes : ℕ → Arg → Type 0 where
  a_string : {chr : ℕ} (s : List ℕ) → chr ≡ b's' → Takes chr (text s)
  an_int : {chr : ℕ} (n : ℕ) → chr ≡ b'd' → IsInt (signed (u32 n)) → Takes chr (int n)
  bits : {chr : ℕ} (n : ℕ) → chr ≡ b'x' → Takes chr (int n)

-- Each conversion of a format has its argument.
pub data Accepts : List ℕ → List Arg → Type 0 where
  nothing : {args : List Arg} → Accepts [] args
  one : {chr : ℕ} {args : List Arg} → Accepts (chr ∷ []) args
  skips :
      {chr next : ℕ} {rest : List ℕ} {args : List Arg}
      → chr == b'%' && is_conversion next ≡ false
      → Accepts (next ∷ rest) args
      → Accepts (chr ∷ next ∷ rest) args
  takes :
      {chr next : ℕ} {rest : List ℕ} {arg : Arg} {args : List Arg}
      → chr ≡ b'%'
      → Takes next arg
      → Accepts rest args
      → Accepts (chr ∷ next ∷ rest) (arg ∷ args)

-- The static buffers hold bytes.
pub record HasBytes (c : Console) : Type 0 where
  pub decimals : IsBytes c.dec_string
  pub hexadecimals : IsBytes c.hex_string

written : (t : List ℕ) (color : ℕ) {c : Console} → HasBytes c → HasBytes (write t color c)
written t color h = record { decimals = h.decimals; hexadecimals = h.hexadecimals }

Takes-is_conversion : {chr : ℕ} {arg : Arg} → Takes chr arg → is_conversion chr ≡ true
Takes-is_conversion (a_string s e) = rw e refl
Takes-is_conversion (an_int n e h) = rw e refl
Takes-is_conversion (bits n e) = rw e refl

module _ (color : ℕ) where
  -- What a conversion comes to.
  abbrev Converted : ℕ → Arg → Console → Type 0
  Converted chr arg c =
      (t : List ℕ) × (after : Console) × (convert chr arg color c ≡ some after)
      × Converts chr arg t
      × (after.display ≡ kwrite t color c.display)
      × HasBytes after

  convert-Converted :
      {chr : ℕ} {arg : Arg} → Takes chr arg → (c : Console) → HasBytes c → Converted chr arg c
  unfolding convert write_dec write_hex
  convert-Converted (a_string s e) c h =
      (s, write s color c, rw e refl, string e, refl, written s color h)
  convert-Converted (an_int n e fits) c h =
      let (buf, run, bytes, is) = dec2str-IsDecimal (signed (u32 n)) c.dec_string h.decimals fits in
      let t = text_at 80 buf 0 in
      (
        t,
        write t color (record c { dec_string = buf }),
        rw (e, write_dec, run) refl,
        decimal e is,
        refl,
        record { decimals = bytes; hexadecimals = h.hexadecimals },
      )
  convert-Converted (bits n e) c h =
      let (buf, run, bytes, is) =
        hex2str-IsHexadecimal (u32 n) c.hex_string h.hexadecimals (omega arith) in
      let t = text_at 80 buf 0 in
      (
        t,
        write t color (record c { hex_string = buf }),
        rw (e, write_hex, run) refl,
        hexadecimal e is,
        refl,
        record { decimals = h.decimals; hexadecimals = bytes },
      )

  -- What rendering a format comes to.
  abbrev Rendered : List ℕ → List Arg → Console → Type 0
  Rendered format args c =
      (out : List ℕ) × (after : Console) × (render format args color c ≡ some after)
      × Formats format args out
      × (after.display ≡ kwrite out color c.display)
      × HasBytes after

  render-Rendered :
      {format : List ℕ} {args : List Arg}
      → Accepts format args
      → (c : Console) → HasBytes c
      → Rendered format args c
  unfolding render kwrite
  render-Rendered nothing c h = ([], c, refl, ends, refl, h)
  render-Rendered (one {chr}) c h =
      (chr ∷ [], write (chr ∷ []) color c, refl, final, refl, written (chr ∷ []) color h)
  render-Rendered (skips {chr} no_conversion rest) c h =
      let (out, after, run, formats, shown, bytes) =
        render-Rendered rest (write (chr ∷ []) color c) (written (chr ∷ []) color h) in
      (chr ∷ out, after, rw no_conversion run, literal no_conversion formats, shown, bytes)
  render-Rendered (takes {chr} {next} percent arg rest) c h =
      let (t, c', converts, is, shown, bytes) = convert-Converted arg c h in
      let (out, after, run, formats, shown', bytes') = render-Rendered rest c' bytes in
      let converts_next = Takes-is_conversion arg in
      (
        t ++ out,
        after,
        rw (percent, converts_next, converts) run,
        conversion percent is formats,
        shown' ∙ ap (kwrite out color) shown ∙ sym (kwrite-append t out color c.display),
        bytes',
      )

-- Where the static buffers hold bytes and each conversion of the format has an argument of its
-- kind, none of those for %d INT_MIN, log returns: it has written, in the colour of the level, the
-- label of the level and the format with each conversion replaced by its argument, a string by
-- itself, a number by its decimal numeral for %d and by 0x and its hexadecimal numeral for %x, and
-- the buffers hold bytes again.
pub log-Formats :
    (call : LogCall) (c : Console)
    → HasBytes c
    → Accepts call.format call.args
    → (out : List ℕ) × (after : Console) × (log call c ≡ some after)
      × Formats call.format call.args out
      × (after.display ≡ kwrite (label_of call.status ++ out) (color_of call.status) c.display)
      × HasBytes after
unfolding log
log-Formats call c h accepts =
    let color = color_of call.status in
    let label = label_of call.status in
    let (out, after, run, formats, shown, bytes) =
      render-Rendered color accepts (write label color c) (written label color h) in
    (out, after, run, formats, shown ∙ sym (kwrite-append label out color c.display), bytes)
