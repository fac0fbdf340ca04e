-- ===== src/Pic/Setup.antt =====
-- What `init_pic` and `PIC_sendEOI` do to the controllers.
use kess_os_paranoid_edition.Base.{ℕ, leb, ◌≡◌, refl, [], Bool-cases, inl, inr, if◌then◌else◌}
use kess_os_paranoid_edition.Outcome.{Outcome, done}
use kess_os_paranoid_edition.Ports.{Bus}
use kess_os_paranoid_edition.Pic.{init_pic, pic_send_eoi}
use kess_os_paranoid_edition.Pic.Device.{
  Chip, master, slave, Controller, Is8259, operating, acknowledged,
}

-- The controllers that a run leaves.
pub record Leaves {S : Type 0} (chip : Chip → S → Controller) (o : Outcome S (Unit {0}))
    (first second : Controller) : Type 0 where
  pub after : S
  pub returns : o ≡ done tt after
  pub on_master : chip master after ≡ first
  pub on_slave : chip slave after ≡ second

-- Lines 0 to 7 from vector 0x20 on, lines 8 to 15 from 0x28 on, the slave on line 2 of the master,
-- and every line off.
abbrev pub remapped : Chip → Controller
remapped master = record {
  phase = operating;
  vector = 0x20;
  cascade = 4;
  mask = 0xFF;
  in_service = [];
}
remapped slave = record {
  phase = operating;
  vector = 0x28;
  cascade = 2;
  mask = 0xFF;
  in_service = [];
}

module _ {S : Type 0} (bus : Bus S) (chip : Chip → S → Controller) (device : Is8259 bus chip) where
  -- On controllers that behave as the 8259A is documented, init_pic leaves from any state both
  -- operating, the master at vector 0x20 and the slave at 0x28, the slave on line 2, and every
  -- line masked.
  pub init_pic-Leaves : (s : S) → Leaves chip (init_pic bus s) (remapped master) (remapped slave)
  unfolding init_pic
  init_pic-Leaves s = record {
    after = _;
    returns = refl;
    on_master = simp (device.writes, device.icw1) refl;
    on_slave = simp (device.writes, device.icw1) refl;
  }

  abbrev pub acknowledge : Controller → Controller
  acknowledge p = record p { in_service = acknowledged p.in_service }

  -- On controllers that behave as documented, PIC_sendEOI acknowledges the innermost line in
  -- service of the master, and that of the slave exactly if the line is 8 or higher.
  pub pic_send_eoi-Leaves :
      (irq : ℕ) (s : S)
      → Leaves chip
          (pic_send_eoi bus irq s)
          (acknowledge (chip master s))
          (if leb 8 irq then acknowledge (chip slave s) else chip slave s)
  unfolding pic_send_eoi
  pic_send_eoi-Leaves irq s = elim (Bool-cases (leb 8 irq)) [
    | inl high ↦ record {
      after = bus.out8 0x20 0x20 (bus.out8 0xA0 0x20 s);
      returns = rw high refl;
      on_master = simp (device.writes, device.eoi) refl;
      on_slave = rw high (simp (device.writes, device.eoi) refl);
    }
    | inr low ↦ record {
      after = bus.out8 0x20 0x20 s;
      returns = rw low refl;
      on_master = simp (device.writes, device.eoi) refl;
      on_slave = rw low (simp (device.writes) refl);
    }
  ]
