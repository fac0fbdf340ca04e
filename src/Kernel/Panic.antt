-- ===== src/Kernel/Panic.antt =====
-- The macro `panic` of kernel/src/interrupts/asm/exceptions.asm, and the handlers that it makes.
use kess_os_paranoid_edition.Base.{ℕ, ◌≡◌, arith, Option, none, some, []}
use kess_os_paranoid_edition.Log.{message, panic as panic_status, plain}
use kess_os_paranoid_edition.Screen.{clear_screen}
use kess_os_paranoid_edition.Strings.{hex2str}
use kess_os_paranoid_edition.Kernel.Console.{Console, log, text_at}
use kess_os_paranoid_edition.Kernel.Gates.{vector}
use kess_os_paranoid_edition.Kernel.Start.{
  Handler, div0_handler, debug_exception, breakpoint_exception, overflow_exception,
  boundrange_exceeded_exception, invalid_opcode_exception, dev_not_avail_exception, double_fault,
  invalid_tss_exception, stack_segment_fault, general_protection_fault, segment_not_present,
  page_fault, irq0_handler,
}

abbrev pub after : Option Console → (Console → Option Console) → Option Console
after none k = none
after (some c) k = k c

-- The call of `log` on the text that `hex2str` returns.
unfoldable pub log_vector : ℕ → Console → Option Console
unfolding log text_at
log_vector vector c = elim (hex2str vector c.hex_string) [
  | none ↦ none
  | some buf ↦
      log (record { format = text_at 80 buf 0; status = plain; args = [] })
        (record c { hex_string = buf })
]

-- The screen at the `hlt` that ends the macro.
unfoldable pub panic : ℕ → Console → Option Console
unfolding log_vector
panic vector c =
    after
      (log (message "VECTOR FIRED: " panic_status)
        (record c { display = clear_screen 0x212E52 c.display }))
      λ c1. after (log_vector vector c1) λ c2. after (log (message "\n" plain) c2) λ c3.
        after (log (message "\n" plain) c3) (
          log (
            message "System is now halted. When you are done debugging, push the power button.\n"
              plain))

-- The vector that a handler passes to the macro; `irq0_handler` is no use of it.
unfoldable pub panic_vector : Handler → Option ℕ
panic_vector div0_handler = some 0x0
panic_vector debug_exception = some 0x1
panic_vector breakpoint_exception = some 0x3
panic_vector overflow_exception = some 0x4
panic_vector boundrange_exceeded_exception = some 0x5
panic_vector invalid_opcode_exception = some 0x6
panic_vector dev_not_avail_exception = some 0x7
panic_vector double_fault = some 0x8
panic_vector invalid_tss_exception = some 0xA
panic_vector segment_not_present = some 0xB
panic_vector stack_segment_fault = some 0xC
panic_vector general_protection_fault = some 0xD
panic_vector page_fault = some 0xE
panic_vector irq0_handler = none

-- A handler reports the vector of the event that its gate stands at.
pub panic_vector-vector : (h : Handler) (v : ℕ) → panic_vector h ≡ some v → v ≡ vector h
unfolding panic_vector
panic_vector-vector irq0_handler v e = cc
panic_vector-vector h v e = ground arith
