-- ===== src/Pit/Ready.antt =====
-- The interrupt set-up at the end of `init` in kernel/src/kernel.c: `init_pic` and then `pit_init`.
use kess_os_paranoid_edition.Base.{ℕ, ◌≡◌, refl, ap, ◌∙◌, bit_and}
use kess_os_paranoid_edition.Outcome.{done, ◌>>◌, and_then}
use kess_os_paranoid_edition.Ports.{Bus}
use kess_os_paranoid_edition.Pic.{init_pic}
use kess_os_paranoid_edition.Pic.Device.{Chip, master, slave, Controller, Is8259}
use kess_os_paranoid_edition.Pic.Setup.{remapped, init_pic-Leaves}
use kess_os_paranoid_edition.Pit.{pit_init, using_apic}
use kess_os_paranoid_edition.Pit.Device.{Counter, Is8254, low_next, programmed}

module _ {S : Type 0} (bus : Bus S) (chip : Chip → S → Controller) (counter : S → Counter)
    (pics : Is8259 bus chip) (pit : Is8254 bus counter) where
  -- Only line 0 is on, at vector 0x20, and it ticks at 100 Hz.
  pub record IsReady (s : S) : Type 0 where
    pub on_master : chip master s ≡ record (remapped master) { mask = 0xFE }
    pub on_slave : chip slave s ≡ remapped slave
    pub on_counter : counter s ≡ record { access = low_next; reload = 11931 }

  abbrev read_mask : S → ℕ × S
  read_mask s = bus.in8 0x21 (programmed bus counter pit 100 s)

  abbrev unmasked : S → S
  unmasked s = bus.out8 0x21 0xFE (read_mask s).1

  -- `pit_init` where every line is off.
  module _ (s : S) (first : chip master s ≡ remapped master)
      (second : chip slave s ≡ remapped slave) where
    all_off : (read_mask s).0 ≡ 0xFF
    all_off =
        let unchanged : chip master (programmed bus counter pit 100 s) ≡ chip master s =
          simp (pics.writes) refl in
        pics.mask master _ (ap (λ c. c.phase) (unchanged ∙ first))
        ∙ ap (λ c. c.mask) (unchanged ∙ first)

    runs :
        (kern_flags : ℕ)
        → bit_and kern_flags using_apic ≡ 0
        → pit_init bus kern_flags s ≡ done tt (unmasked s)
    unfolding pit_init
    runs kern_flags legacy = rw (legacy, all_off) refl

    unmasked-IsReady : IsReady (unmasked s)
    unmasked-IsReady = record {
      on_master = simp (pics.writes, pics.reads, first) refl;
      on_slave = simp (pics.writes, pics.reads, second) refl;
      on_counter = simp (pit.writes, pit.reads, pit.square_wave) refl;
    }

  -- Without an APIC, init_pic followed by pit_init leaves the timer line as the only one that is
  -- not masked, at vector 0x20, and channel 0 with the count 11931, which is 100 Hz.
  pub pit_init-IsReady :
      (kern_flags : ℕ) (s : S)
      → bit_and kern_flags using_apic ≡ 0
      → (after : S) × ((init_pic bus >> pit_init bus kern_flags) s ≡ done tt after) × IsReady after
  pit_init-IsReady kern_flags s legacy =
      let set_up = init_pic-Leaves bus chip pics s in
      (
        unmasked set_up.after,
        ap (λ o. and_then o (λ _. pit_init bus kern_flags)) set_up.returns
            ∙ runs set_up.after set_up.on_master set_up.on_slave kern_flags legacy,
        unmasked-IsReady set_up.after set_up.on_master set_up.on_slave,
      )
