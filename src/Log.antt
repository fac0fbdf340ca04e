-- ===== src/Log.antt =====
-- kernel/src/debug/log.h: the arguments of `log`, which every part of the kernel calls. A state
-- keeps its calls in a journal, the newest first; Console renders one onto the screen.
use Prim.Native.Char.{code}
use Prim.Native.String.{String}
use kess_os_paranoid_edition.Base.{ℕ, List, [], ◌∷◌}

-- `plain` is any other value, such as the -1 of the callers that want no label.
pub data Status : Type 0 where
  warning info critical panic plain : Status

-- A variadic argument: a string, or the 32 bits of an `int`.
pub data Arg : Type 0 where
  text : List ℕ → Arg
  int : ℕ → Arg

pub record LogCall : Type 0 where
  pub format : List ℕ
  pub status : Status
  pub args : List Arg

abbrev pub Journal : Type 0
Journal = List LogCall

-- The bytes of a literal.
abbrev pub codes : String → List ℕ
codes String.[] = []
codes (String.◌∷◌ c s) = code c ∷ codes s

abbrev pub message : String → Status → LogCall
message s level = record { format = codes s; status = level; args = [] }
