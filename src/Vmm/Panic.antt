-- ===== src/Vmm/Panic.antt =====
-- The panics of kernel/src/arch/memory/impl/vmm.c: a call of `log` and FULL_HALT.
use kess_os_paranoid_edition.Base.{◌≡◌, true}
use kess_os_paranoid_edition.Log.{LogCall}
use kess_os_paranoid_edition.Memory.{Memory}
use kess_os_paranoid_edition.Outcome.{halted, Ensures, halts, ◌>>◌}
use kess_os_paranoid_edition.Kernel.Console.{is_literal, is_literal-IsLiteral, log-IsLiteral}
use kess_os_paranoid_edition.Kernel.Terminal.{Terminal, console_of}
use kess_os_paranoid_edition.Vmm.{Vmm, log}

-- It halts, with the allocator as it was.
pub log-halts :
    {A : Type 0} {H : Vmm → Type 0} (call : LogCall) (s : Vmm)
    → is_literal call.format ≡ true
    → ((m : Memory) (t : Terminal) → H (record s { mem = m; terminal = t }))
    → Ensures {A = A} (λ _ _. ⊥) H ((log call >> halted) s)
log-halts call s literal stopped =
    rw (log-IsLiteral call (console_of s.mem s.terminal) (is_literal-IsLiteral call.format literal))
      (halts (stopped _ _))
