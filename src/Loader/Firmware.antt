-- ===== src/Loader/Firmware.antt =====
-- The services that gnu-efi/bootloader/main.c calls: UEFI's, as the firmware offers them, and those
-- of the gnu-efi library. They are a parameter: a record of functions on the firmware's state.
use kess_os_paranoid_edition.Base.{ℕ, List, Option}
use kess_os_paranoid_edition.Memory.{Memory}
use kess_os_paranoid_edition.Outcome.{Cmd, done}

-- The machine's memory and what the firmware knows beside it.
pub record World (F : Type 0) : Type 0 where
  pub mem : Memory
  pub firmware : F

-- The protocols that are asked for.
pub data Protocol : Type 0 where
  loaded_image simple_file_system : Protocol

-- What `GetMemoryMap` leaves in the three variables that are read afterwards.
pub record MapAnswer : Type 0 where
  pub map_size : ℕ
  pub map_key : ℕ
  pub descriptor_size : ℕ

-- A service that sets a pointer variable returns what the variable holds afterwards, whatever its
-- status, which the loader mostly ignores. Where the loader looks at the status, `none` is an
-- error. `read_key_stroke` returns `none` where it leaves Key as it is.
pub record Uefi (F : Type 0) : Type 0 where
  pub initialize_lib : ℕ → World F → World F
  pub print : List ℕ → World F → World F
  pub locate_graphics : World F → Option ℕ × World F
  pub handle_protocol : ℕ → Protocol → World F → ℕ × World F
  pub open_volume : ℕ → World F → ℕ × World F
  pub open_file : ℕ → List ℕ → World F → Option ℕ × World F
  pub get_info : ℕ → World F → World F
  pub read : ℕ → ℕ → ℕ → World F → World F
  pub set_position : ℕ → ℕ → World F → World F
  pub allocate_pool : ℕ → World F → ℕ × World F
  pub allocate_pages : ℕ → ℕ → World F → ℕ × World F
  pub read_key_stroke : World F → Option ℕ × World F
  pub out8 : ℕ → ℕ → World F → World F
  pub get_memory_map : ℕ → ℕ → World F → MapAnswer × World F
  pub exit_boot_services : ℕ → ℕ → World F → World F

module _ {F A : Type 0} where
  abbrev pub ask : (World F → A × World F) → Cmd (World F) A
  ask service w = done (service w).0 (service w).1

  abbrev pub peek : (Memory → A) → Cmd (World F) A
  peek f w = done (f w.mem) w

abbrev pub tell : {F : Type 0} → (World F → World F) → Cmd (World F) (Unit {0})
tell service w = done tt (service w)

abbrev pub poke : {F : Type 0} → (Memory → Memory) → Cmd (World F) (Unit {0})
poke f w = done tt (record w { mem = f w.mem })
