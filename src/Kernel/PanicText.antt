-- ===== src/Kernel/PanicText.antt =====
-- The screen of the macro `panic` of kernel/src/interrupts/asm/exceptions.asm.
use kess_os_paranoid_edition.Base.{
  ℕ, ◌^◌, ◌<◌, ◌≡◌, refl, sym, ap, ◌∙◌, arith, false, Option, some, List, [], ◌∷◌, ◌++◌, ◌==◌,
}
use mathlib.Core.Path.{subst}
use kess_os_paranoid_edition.Log.{LogCall, message, codes, panic as panic_status, plain}
use kess_os_paranoid_edition.Memory.{Memory}
use kess_os_paranoid_edition.Screen.{kwrite, clear_screen}
use kess_os_paranoid_edition.Strings.{ascii_number}
use kess_os_paranoid_edition.Strings.Number.{IsDigit}
use kess_os_paranoid_edition.Kernel.Console.{
  Console, log, text_at, label_of, color_of, IsLiteral, is_literal-IsLiteral, log-IsLiteral,
  kwrite-append,
}
use kess_os_paranoid_edition.Kernel.Format.{HasBytes}
use kess_os_paranoid_edition.Kernel.Numeral.{AreDigits, IsHexadecimal, hex2str-IsHexadecimal}
use kess_os_paranoid_edition.Kernel.Panic.{panic, log_vector, after}

-- A hexadecimal numeral has no percent sign.
digit_plain : (c : ℕ) → IsDigit 16 ascii_number c → c == b'%' ≡ false
unfolding ascii_number
digit_plain c (d, h, e) = ground arith

AreDigits-IsLiteral : (t : List ℕ) → AreDigits 16 ascii_number t → IsLiteral t
AreDigits-IsLiteral [] h = tt
AreDigits-IsLiteral (c ∷ cs) h = (digit_plain c h.0, AreDigits-IsLiteral cs h.1)

IsHexadecimal-IsLiteral : (n : ℕ) (t : List ℕ) → IsHexadecimal n t → IsLiteral t
IsHexadecimal-IsLiteral n t (u, e, is) =
    subst IsLiteral (sym e) (refl, (refl, AreDigits-IsLiteral u is.digits))

step :
    (k : Console → Option Console) {o : Option Console} {c : Console} {r : Option Console}
    → o ≡ some c
    → k c ≡ r
    → after o k ≡ r
step k e rest = ap (λ o. after o k) e ∙ rest

-- The display behind a call.
abbrev logged : LogCall → Console → Console
logged call c = record c {
  display = kwrite (label_of call.status ++ call.format) (color_of call.status) c.display;
}

abbrev pub notice : List ℕ
notice = codes "System is now halted. When you are done debugging, push the power button.\n"

module _ (vector : ℕ) (c : Console) (bytes : HasBytes c) (fits : vector < 2 ^ 32) where
  log_vector-IsHexadecimal :
      (buf : Memory) × (t : List ℕ) × (log_vector vector c
        ≡ some (record c { display = kwrite t 0xFFFFFF c.display; hex_string = buf }))
      × IsHexadecimal vector t
  unfolding log_vector
  log_vector-IsHexadecimal =
      let (buf, run, _, is) = hex2str-IsHexadecimal vector c.hex_string bytes.hexadecimals fits in
      let t = text_at 80 buf 0 in
      (
        buf,
        t,
        rw (log_vector, run)
            (log-IsLiteral (record { format = t; status = plain; args = [] })
              (record c { hex_string = buf }) (IsHexadecimal-IsLiteral vector t is)),
        is,
      )

-- Where the buffers of the numbers hold bytes and the vector has 32 bits, the macro panic of the
-- exception handlers comes to its hlt: on a screen cleared with 0x212E52 it has written the title
-- and VECTOR FIRED in red, and in white 0x and the hexadecimal numeral of the vector, two newlines
-- and the notice.
pub panic-IsHexadecimal :
    (vector : ℕ) (c : Console)
    → HasBytes c
    → vector < 2 ^ 32
    → (t : List ℕ) × (last : Console) × (panic vector c ≡ some last)
      × IsHexadecimal vector t
      × (last.display
          ≡ kwrite (t ++ (codes "\n\n" ++ notice)) 0xFFFFFF (
              kwrite
                (codes "** KERNEL PANIC **\nVECTOR FIRED: ")
                0xFF0000
                (clear_screen 0x212E52 c.display)))
unfolding panic
panic-IsHexadecimal vector c bytes fits =
    let cleared : Console = record c { display = clear_screen 0x212E52 c.display } in
    let fired = message "VECTOR FIRED: " panic_status in
    let newline = message "\n" plain in
    let last =
      message "System is now halted. When you are done debugging, push the power button.\n" plain in
    let c1 = logged fired cleared in
    let first = log-IsLiteral fired cleared (is_literal-IsLiteral fired.format refl) in
    let (buf, t, second, is) =
      log_vector-IsHexadecimal vector c1
        record { decimals = bytes.decimals; hexadecimals = bytes.hexadecimals } fits in
    let c2 : Console = record c1 { display = kwrite t 0xFFFFFF c1.display; hex_string = buf } in
    let c3 = logged newline c2 in
    let blank =
      λ (d : Console). log-IsLiteral newline d (is_literal-IsLiteral newline.format refl) in
    let rest = λ (d : Console). after (log newline d) (λ d'. after (log newline d') (log last)) in
    let c4 = logged newline c3 in
    (
      t,
      logged last c4,
      step (λ c. after (log_vector vector c) rest) first
          (step rest second (
            step (λ c. after (log newline c) (log last)) (blank c2)
              (step (log last) (blank c3)
                (log-IsLiteral last c4 (is_literal-IsLiteral last.format refl))))),
      is,
      sym (
          kwrite-append t (codes "\n\n" ++ notice) 0xFFFFFF c1.display
          ∙ kwrite-append (codes "\n\n") notice 0xFFFFFF c2.display
          ∙ ap (kwrite notice 0xFFFFFF)
              (kwrite-append (codes "\n") (codes "\n") 0xFFFFFF c2.display)),
    )
