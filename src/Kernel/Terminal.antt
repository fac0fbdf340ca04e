-- ===== src/Kernel/Terminal.antt =====
-- What the parts of the kernel share for `log` of kernel/src/kernel.c: the global `canvas` and the
-- static buffers of the numbers, beside the machine's memory.
use kess_os_paranoid_edition.Base.{Option, none, some}
use kess_os_paranoid_edition.Log.{LogCall}
use kess_os_paranoid_edition.Memory.{Memory}
use kess_os_paranoid_edition.Outcome.{Outcome, done, fault}
use kess_os_paranoid_edition.Screen.{Canvas}
use kess_os_paranoid_edition.Kernel.Console.{Console, log}

pub record Terminal : Type 0 where
  pub canvas : Canvas
  pub dec_string : Memory
  pub hex_string : Memory

abbrev pub console_of : Memory → Terminal → Console
console_of m t = record {
  display = record { mem = m; canvas = t.canvas };
  dec_string = t.dec_string;
  hex_string = t.hex_string;
}

abbrev pub terminal_of : Console → Terminal
terminal_of c = record {
  canvas = c.display.canvas;
  dec_string = c.dec_string;
  hex_string = c.hex_string;
}

-- A state in which `log` has run, from its parts; a call that C leaves undefined is a fault.
abbrev pub printed :
    {S : Type 0} → S → (Memory → Terminal → S) → Option Console → Outcome S (Unit {0})
printed s back none = fault s
printed s back (some c) = done tt (back c.display.mem (terminal_of c))

-- A call of `log` in a state that has memory and the terminal among its parts.
abbrev pub print :
    {S : Type 0} → LogCall → Memory → Terminal → S → (Memory → Terminal → S) → Outcome S (Unit {0})
print call m t s back = printed s back (log call (console_of m t))
