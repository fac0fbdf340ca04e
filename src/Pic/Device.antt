-- ===== src/Pic/Device.antt =====
-- The 8259A behind the ports, as its data sheet documents what kernel/src/arch/io relies on.
use kess_os_paranoid_edition.Base.{ℕ, ◌==◌, if◌then◌else◌, ◌≡◌, List, [], ◌∷◌, ◌/◌, ◌*◌}
use kess_os_paranoid_edition.Ports.{Bus}
use kess_os_paranoid_edition.Pic.{pic1_command, pic1_data, pic2_command, pic2_data}

pub data Chip : Type 0 where
  master slave : Chip

-- Which initialisation word a controller waits for, if any.
pub data Phase : Type 0 where
  operating wants_vector wants_cascade wants_mode : Phase

-- `vector` is that of its first line, `mask` has a bit for every line that is off, and
-- `in_service` has the lines that are not acknowledged, the innermost first.
pub record Controller : Type 0 where
  pub phase : Phase
  pub vector : ℕ
  pub cascade : ℕ
  pub mask : ℕ
  pub in_service : List ℕ

abbrev pub command_port : Chip → ℕ
command_port master = pic1_command
command_port slave = pic2_command

abbrev pub data_port : Chip → ℕ
data_port master = pic1_data
data_port slave = pic2_data

-- A write to the data port, which means the next initialisation word, or else the mask.
abbrev pub write_data : ℕ → Phase → Controller → Controller
write_data v operating p = record p { mask = v }
write_data v wants_vector p = record p { phase = wants_cascade; vector = v / 8 * 8 }
write_data v wants_cascade p = record p { phase = wants_mode; cascade = v }
write_data v wants_mode p = record p { phase = operating }

abbrev pub acknowledged : List ℕ → List ℕ
acknowledged [] = []
acknowledged (line ∷ lines) = lines

abbrev pub respond : (ℕ → Controller → Controller) → Chip → ℕ → ℕ → Controller → Controller
respond command c port v p =
    if port == command_port c
    then command v p
    else if port == data_port c
    then write_data v p.phase p
    else p

-- `chip` observes the controllers of a bus. Of the commands, only the two that the kernel sends
-- are described.
pub record Is8259 {S : Type 0} (bus : Bus S) (chip : Chip → S → Controller) : Type 0 where
  pub command : ℕ → Controller → Controller
  pub writes :
      (c : Chip) (port v : ℕ) (s : S)
      → chip c (bus.out8 port v s) ≡ respond command c port v (chip c s)
  pub icw1 :
      (p : Controller)
      → command 0x11 p ≡ record p { phase = wants_vector; mask = 0; in_service = [] }
  pub eoi : (p : Controller) → command 0x20 p ≡ record p { in_service = acknowledged p.in_service }
  pub reads : (c : Chip) (port : ℕ) (s : S) → chip c ((bus.in8 port s).1) ≡ chip c s
  pub mask :
      (c : Chip) (s : S)
      → (chip c s).phase ≡ operating
      → (bus.in8 (data_port c) s).0 ≡ (chip c s).mask
