-- ===== src/Idt/PageFault.antt =====
-- `get_page_fault_code` of kernel/src/interrupts/impl/exception_handling.c: the code can be read
-- off what it logs.
use kess_os_paranoid_edition.Base.{
  ℕ, ◌+◌, ◌*◌, ◌/◌, ◌%◌, ◌^◌, ◌≡◌, refl, ap, ◌∙◌, arith, ◌==◌, if◌then◌else◌, bit_and,
  bit_and_frame, List, [], ◌∷◌, ◌&&◌, false, Bool-cases, inl, inr,
}
use native.Mathlib.Nat.{one-le-pow}
use kess_os_paranoid_edition.Log.{LogCall, Journal, message, plain}
use kess_os_paranoid_edition.Idt.{get_page_fault_code, report}

-- The bit that a label stands for.
abbrev pub label : List ℕ → ℕ
label (c ∷ d ∷ rest) =
    if d == b'|'
    then (if c == b'P'
        then 1
        else if c == b'W'
        then 2
        else if c == b'U'
        then 4
        else if c == b'R'
        then 8
        else if c == b'I'
        then 16
        else 0)
    else if c == b'P' && d == b'K'
    then 32
    else if c == b'S' && d == b'S'
    then 64
    else 0
label (c ∷ []) = 0
label [] = 0

-- The bits of the newest `n` calls.
abbrev pub read_code : Journal → ℕ
read_code [] = 0
read_code (call ∷ calls) = label call.format + read_code calls

report_lem :
    (e k : ℕ) (call : LogCall) (j : Journal)
    → label call.format ≡ 2 ^ k
    → read_code (report e (1 * 2 ^ k) call j) ≡ e / 2 ^ k % 2 * 2 ^ k + read_code j
report_lem e k call j value = elim (Bool-cases (e / 2 ^ k % 2 == 0)) [
  | inl off ↦
      let zero_bit : e / 2 ^ k % 2 ≡ 0 = ground arith in
      let clear : bit_and e (1 * 2 ^ k) ≡ 0 = bit ∙ rw zero_bit (omega arith) in
      rw (clear, zero_bit) (omega arith)
  | inr on ↦
      let one_bit : e / 2 ^ k % 2 ≡ 1 = ground arith in
      let set : bit_and e (1 * 2 ^ k) == 0 ≡ false =
        rw (bit, one_bit) (ground (arith, one-le-pow k 2)) in
      rw (set, one_bit) (ap (λ (t : ℕ). t + read_code j) (value ∙ omega arith))
]
  where
    bit : bit_and e (1 * 2 ^ k) ≡ e / 2 ^ k % 2 * 2 ^ k
    bit = bit_and_frame k 1 e

-- The labels that get_page_fault_code logs give back the low seven bits of any error code.
pub get_page_fault_code_lem :
    (error_code : ℕ) (journal : Journal)
    → read_code (get_page_fault_code error_code journal) ≡ error_code % 2 ^ 7 + read_code journal
unfolding get_page_fault_code
get_page_fault_code_lem e journal =
    let head =
      message "-|" plain
      ∷ message
          "\nBelow are error flags, take a photo of this screen and send it to [HSC] Spurious#0070 on Discord.\n\n"
          plain
      ∷ journal in
    let read = report e 1 (message "P|" plain) head in
    let write = report e 2 (message "W|" plain) read in
    let user = report e 4 (message "U|" plain) write in
    let reserved = report e 8 (message "R|" plain) user in
    let fetch = report e 16 (message "I|" plain) reserved in
    let key = report e 32 (message "PK|" plain) fetch in
    omega (
      arith,
      report_lem e 0 (message "P|" plain) head refl,
      report_lem e 1 (message "W|" plain) read refl,
      report_lem e 2 (message "U|" plain) write refl,
      report_lem e 3 (message "R|" plain) user refl,
      report_lem e 4 (message "I|" plain) reserved refl,
      report_lem e 5 (message "PK|" plain) fetch refl,
      report_lem e 6 (message "SS|" plain) key refl,
    )
