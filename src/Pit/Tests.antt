-- ===== src/Pit/Tests.antt =====
-- Tests of kernel/src/arch/io and kernel/src/arch/timer on the chips of a PC.
use kess_os_paranoid_edition.Base.{
  ℕ, ◌==◌, ◌≡◌, refl, arith, if◌then◌else◌, List, [], ◌∷◌, ◌++◌, none,
}
use kess_os_paranoid_edition.Outcome.{done, ◌>>◌}
use kess_os_paranoid_edition.Ports.{Bus}
use kess_os_paranoid_edition.Pic.{init_pic}
use kess_os_paranoid_edition.Pic.Device.{
  Chip, master, slave, Controller, Is8259, operating, wants_vector, acknowledged, data_port,
}
use kess_os_paranoid_edition.Pic.Device as PicDevice
use kess_os_paranoid_edition.Pic.Setup.{Leaves, remapped, init_pic-Leaves}
use kess_os_paranoid_edition.Pit.{Timer, Event, test, irq0, pit_init, pit_sleep}
use kess_os_paranoid_edition.Pit.Device.{Counter, Is8254, low_next, pit_set_freq_lem}
use kess_os_paranoid_edition.Pit.Device as PitDevice
use kess_os_paranoid_edition.Pit.Ready.{IsReady, pit_init-IsReady}
use kess_os_paranoid_edition.Pit.Sleep.{Slept, pit_sleep-Slept, pit_sleep_never}

abbrev pic_command : ℕ → Controller → Controller
pic_command v p =
    if v == 0x11
    then record p { phase = wants_vector; mask = 0; in_service = [] }
    else if v == 0x20
    then record p { in_service = acknowledged p.in_service }
    else p

abbrev pit_command : ℕ → Counter → Counter
pit_command v c = if v == 0x36 then record c { access = low_next } else c

pub record Pc : Type 0 where
  pub first : Controller
  pub second : Controller
  pub counter : Counter

abbrev pub chip : Chip → Pc → Controller
chip master s = s.first
chip slave s = s.second

abbrev out8 : ℕ → ℕ → Pc → Pc
out8 port v s = record {
  first = PicDevice.respond pic_command master port v s.first;
  second = PicDevice.respond pic_command slave port v s.second;
  counter = PitDevice.respond pit_command port v s.counter;
}

abbrev pub bus : Bus Pc
bus = record {
  out8 = out8;
  out16 = λ port v s. s;
  out32 = λ port v s. s;
  in8 = λ port s. (if port == 0x21 then s.first.mask else s.second.mask, s);
  in16 = λ port s. (0, s);
  in32 = λ port s. (0, s);
}

routed :
    (c : Chip) (port v : ℕ) (s : Pc)
    → chip c (bus.out8 port v s) ≡ PicDevice.respond pic_command c port v (chip c s)
routed master port v s = refl
routed slave port v s = refl

masks :
    (c : Chip) (s : Pc)
    → (chip c s).phase ≡ operating
    → (bus.in8 (data_port c) s).0 ≡ (chip c s).mask
masks master s e = refl
masks slave s e = refl

pub pc-Is8259 : Is8259 bus chip
pc-Is8259 = record {
  command = pic_command;
  writes = routed;
  icw1 = λ p. refl;
  eoi = λ p. refl;
  reads = λ c port s. refl;
  mask = masks;
}

pub pc-Is8254 : Is8254 bus (λ s. s.counter)
pc-Is8254 = record {
  command = pit_command;
  writes = λ port v s. refl;
  reads = λ port s. refl;
  square_wave = λ c. refl;
}

-- Both controllers are serving a line.
abbrev idle : Controller
idle = record { phase = operating; vector = 8; cascade = 4; mask = 0; in_service = 2 ∷ [] }

abbrev pub pc : Pc
pc = record { first = idle; second = idle; counter = record { access = low_next; reload = 0 } }

init_pic-Leaves_example : Leaves chip (init_pic bus pc) (remapped master) (remapped slave)
init_pic-Leaves_example = init_pic-Leaves bus chip pc-Is8259 pc

pit_init-IsReady_example :
    (after : Pc) × ((init_pic bus >> pit_init bus 2) pc ≡ done tt after)
    × IsReady bus chip (λ s. s.counter) pc-Is8259 pc-Is8254 after
pit_init-IsReady_example = pit_init-IsReady bus chip (λ s. s.counter) pc-Is8259 pc-Is8254 2 pc refl

abbrev early : Timer
early = record { ticks = 7; journal = [] }

abbrev busy : List Event
busy = test ∷ irq0 ∷ test ∷ irq0 ∷ irq0 ∷ []

pit_sleep-Slept_example : Slept 2 (busy ++ (test ∷ irq0 ∷ [])) early
pit_sleep-Slept_example = pit_sleep-Slept 2 busy (irq0 ∷ []) early (omega arith) (omega arith)

pit_sleep_never_example : pit_sleep 200 busy (record { ticks = 65400; journal = [] }) ≡ none
pit_sleep_never_example =
    pit_sleep_never 200 busy (record { ticks = 65400; journal = [] }) (omega arith) (omega arith)
      (omega arith)
