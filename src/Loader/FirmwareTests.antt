-- ===== src/Loader/FirmwareTests.antt =====
-- Tests of gnu-efi/bootloader/main.c over a small firmware: a disk of two files, a keyboard whose
-- keys are given, and a pool that grows.
use kess_os_paranoid_edition.Base.{
  ◌⊎◌, ℕ, zero, suc, ◌+◌, ◌-◌, ◌*◌, ◌≤◌, ◌<◌, ◌≡◌, refl, inl, arith, Option, none, some, List, [],
  ◌∷◌, ◌++◌, ◌&&◌, leb, ltb, ◌==◌, if◌then◌else◌,
}
use kess_os_paranoid_edition.Log.{codes}
use kess_os_paranoid_edition.Memory.{Memory, load16, load32, load64}
use kess_os_paranoid_edition.Outcome.{Outcome, done, halted, fault, out_of_fuel}
use kess_os_paranoid_edition.Strings.{pos}
use kess_os_paranoid_edition.Loader.{memcmp_loop, menu_loop, menu_start, segment_pages}
use kess_os_paranoid_edition.Loader.Firmware.{World, Uefi}
use kess_os_paranoid_edition.Loader.Load.{font_at, load_font, load_segments}
use kess_os_paranoid_edition.Loader.Boot.{
  Handover, Environment, menu_keys, hand_over, check_kernel, efi_main,
}
use kess_os_paranoid_edition.Loader.Keys.{Keyboard, length, view, Simulates, menu_keys-Simulates}
use kess_os_paranoid_edition.Loader.Entry.{Ends, efi_main-Ends}
use kess_os_paranoid_edition.Loader.Segment.{IsFile, Fits, Outside}
use kess_os_paranoid_edition.Loader.Segments.{IsLoadable, AllLoaded, load_segments_lem}

record Firmware : Type 0 where
  keys : List (Option ℕ)
  resets : ℕ
  position : ℕ
  pool : ℕ

abbrev put : ℕ → List ℕ → Memory → Memory
put p [] m = m
put p (c ∷ cs) m = put (p + 1) cs (λ q. if q == p then c else m q)

-- kernel.elf: one segment of two bytes, at 120 of the file, for the address 0x2000.
abbrev program_header : List ℕ
program_header =
    1 ∷ 0 ∷ 0 ∷ 0 ∷ 5 ∷ 0 ∷ 0 ∷ 0 ∷ 120 ∷ 0 ∷ 0 ∷ 0 ∷ 0 ∷ 0 ∷ 0 ∷ 0 ∷ 0 ∷ 0x20 ∷ 0 ∷ 0 ∷ 0 ∷ 0 ∷ 0
    ∷ 0 ∷ 0 ∷ 0x20 ∷ 0 ∷ 0 ∷ 0 ∷ 0 ∷ 0 ∷ 0 ∷ 2 ∷ 0 ∷ 0 ∷ 0 ∷ 0 ∷ 0 ∷ 0 ∷ 0 ∷ 5 ∷ []

abbrev kernel_elf : Memory
kernel_elf = put 0 (0x7F ∷ codes "ELF" ++ 2 ∷ 1 ∷ 1 ∷ []) (
    put 16 (2 ∷ 0 ∷ 62 ∷ 0 ∷ 1 ∷ []) (
      put 25 (0x20 ∷ []) (
        put 32 (64 ∷ []) (
          put 54 (56 ∷ 0 ∷ 1 ∷ []) (put 64 program_header (put 120 (0xFA ∷ 0xF4 ∷ []) (λ q. 0)))))))

abbrev disk : ℕ → Memory
disk file = if file == 7 then kernel_elf else put 0 (0x36 ∷ 4 ∷ 0 ∷ 16 ∷ []) (λ q. 0)

abbrev with_pool : ℕ → World Firmware → ℕ × World Firmware
with_pool n w =
    (w.firmware.pool, record w { firmware = record w.firmware { pool = w.firmware.pool + n } })

abbrev read_key : List (Option ℕ) → World Firmware → Option ℕ × World Firmware
read_key [] w = (none, w)
read_key (key ∷ keys) w = (key, record w { firmware = record w.firmware { keys = keys } })

abbrev same : World Firmware → World Firmware
same w = w

-- `n` bytes of a file of 4096, from `at` on, in the buffer.
abbrev filled : Memory → ℕ → ℕ → ℕ → Memory → Memory
filled file at n buffer m q =
    if leb buffer q && ltb q (buffer + n) && ltb (at + (q - buffer)) 4096
    then file (at + (q - buffer))
    else m q

filled-inside :
    (file : Memory) (at n buffer : ℕ) (m : Memory) (k : ℕ)
    → k < n
    → at + k < 4096
    → filled file at n buffer m (buffer + k) ≡ file (at + k)
filled-inside file at n buffer m k less within =
    let e : buffer + k - buffer ≡ k = omega arith in rw e (ground arith)

filled-outside :
    (file : Memory) (at n buffer : ℕ) (m : Memory) (q : ℕ)
    → (q < buffer) ⊎ (buffer + n ≤ q)
    → filled file at n buffer m q ≡ m q
filled-outside file at n buffer m q out = ground arith

-- A path that starts with a `k` is the kernel's.
abbrev small : Uefi Firmware
small = record {
  initialize_lib = λ _. same;
  print = λ _. same;
  locate_graphics = λ w. (some 0x500, w);
  handle_protocol = λ _ _ w. (1, w);
  open_volume = λ _ w. (2, w);
  open_file = λ _ path w. (
    elim path [ [] ↦ none | chr ∷ _ ↦ some (if chr == b'k' then 7 else 8) ],
    record w { firmware = record w.firmware { position = 0 } },
  );
  get_info = λ _. same;
  read = λ file n buffer w. record {
    mem = filled (disk file) w.firmware.position n buffer w.mem;
    firmware = record w.firmware { position = w.firmware.position + n };
  };
  set_position = λ _ at w. record w { firmware = record w.firmware { position = at } };
  allocate_pool = with_pool;
  allocate_pages = λ _ addr w. (addr, w);
  read_key_stroke = λ w. read_key w.firmware.keys w;
  out8 = λ _ _ w. record w { firmware = record w.firmware { resets = w.firmware.resets + 1 } };
  get_memory_map = λ _ _ w. (record { map_size = 96; map_key = 5; descriptor_size = 48 }, w);
  exit_boot_services = λ _ _. same;
}

abbrev start : List (Option ℕ) → World Firmware
start keys = record {
  mem = put 0x100 (0x7F ∷ codes "ELF") (λ q. 0);
  firmware = record { keys = keys; resets = 0; position = 0; pool = 0x1000 };
}

abbrev environment : Environment
environment = record {
  elf_magic = 0x100;
  rsd_ptr = 0x200;
  sys_table = 0x280;
  header = 0x300;
  compare_guid = λ m p. pos (m p);
  stack = (0, 0);
}

-- Down, and the right arrow, which resets; up, and the left arrow.
abbrev keys : List (Option ℕ)
keys = some 2 ∷ some 3 ∷ some 1 ∷ none ∷ some 4 ∷ []

-- The call of the kernel: its entry, its font, the flag and the size of the map.
handed : Outcome (World Firmware) (Option Handover) → ℕ × ℕ × ℕ × ℕ
handed (done none w) = (0, 0, 0, 0)
handed (done (some h) w) = (h.entry, h.font, h.legacy_mode, h.mem_info.m_size)
handed (halted w) = (1, 0, 0, 0)
handed (fault w) = (2, 0, 0, 0)
handed out_of_fuel = (3, 0, 0, 0)

-- The state once the kernel's header is read, and a file that is no kernel.
opened : World Firmware
opened = small.read 7 64 0x300 (start [])

runs :
    (handed (hand_over small environment 9 0x500 0x600 1 opened) ≡ (0x2000, 0x600, 1, 96))
    × (handed (hand_over small environment 9 0x500 0 1 opened) ≡ (0, 0, 0, 0))
    × (handed (check_kernel small environment 5 9 8 (start [])) ≡ (0, 0, 0, 0))
unfolding handed opened hand_over check_kernel memcmp_loop load64 load32 load16
runs = (refl, refl, refl)

-- A pointer, and the font behind it: its size of a character and its glyphs.
font_of : Outcome (World Firmware) ℕ → ℕ × ℕ × ℕ
font_of (done p w) = (p, (font_at w.mem p).chsize, (font_at w.mem p).glyph_buffer)
font_of (halted w) = (0, 0, 0)
font_of (fault w) = (0, 0, 0)
font_of out_of_fuel = (0, 0, 0)

-- kernel.elf passes for a font too.
fonts :
    (font_of (load_font small 0 (codes "zap-light16.psf") 9 (start [])) ≡ (0x1FF4, 16, 0x1004))
    × (font_of (load_font small 0 (codes "kernel.elf") 9 (start [])) ≡ (0x55BE, 70, 0x1004))
unfolding font_of load_font font_at load64 load32 load16
fonts = (refl, refl)

abbrev small_keyboard : Keyboard small
small_keyboard = record {
  queue = λ f. f.keys;
  resets = λ f. f.resets;
  next_key = λ w key keys e. rw e (refl, refl, refl);
  reset = λ w. (refl, refl);
}

menu_keys-Simulates_example :
    Simulates small 0 0 small_keyboard
      (menu_loop keys (menu_start 0))
      (menu_keys small (length keys) 0 0 (view (menu_start 0)) (start keys))
menu_keys-Simulates_example =
    menu_keys-Simulates small 0 0 small_keyboard keys (menu_start 0) (start keys) refl refl

efi_main-Ends_example :
    Ends small environment 9 (start keys) (efi_main small environment 5 9 (start keys))
efi_main-Ends_example = efi_main-Ends small environment 9 (start keys) 5

small_file : IsFile small 7
small_file = record {
  content = disk 7;
  size = 4096;
  position = λ f. f.position;
  set_position_mem = λ at w. refl;
  set_position_at = λ at w. refl;
  read_inside = λ n buffer w k less within.
      filled-inside (disk 7) w.firmware.position n buffer w.mem k less within;
  read_outside =
      λ n buffer w q out. filled-outside (disk 7) w.firmware.position n buffer w.mem q out;
  allocate_at = λ n addr w. refl;
  allocate_mem = λ n addr w q out. refl;
}

-- The program header in memory.
abbrev loading : World Firmware
loading = record (start []) { mem = put 0x1000 program_header (λ q. 0) }

header-Fits : (i : ℕ) → i < 1 → Fits small 7 small_file loading.mem (0x1000 + i * 56)
unfolding small_file load64 load32 load16
header-Fits zero h = record { in_file = omega arith; in_memory = omega arith; in_int = omega arith }
header-Fits (suc i) h = absurd (omega arith)

header-Outside : (i q : ℕ) → i < 1 → q < 0x1038 → Outside loading.mem (0x1000 + i * 56) q
unfolding load64 load32 load16 segment_pages
header-Outside zero q h b = inl (omega arith)
header-Outside (suc i) q h b = absurd (omega arith)

program_header-IsLoadable : IsLoadable small 7 small_file loading.mem 0x1000 56 1
program_header-IsLoadable = record {
  entry_size = omega arith;
  fits = λ i h load. header-Fits i h;
  apart_table = λ i q h load a b. header-Outside i q h (omega arith);
  apart = λ i j k hi hj ne. absurd (ne (omega arith));
}

load_segments_lem_example :
    AllLoaded small 7 small_file loading.mem 0x1000 56 1 (load_segments small 7 56 1 0x1000 loading)
load_segments_lem_example =
    load_segments_lem small 7 small_file 0x1000 56 1 loading program_header-IsLoadable
