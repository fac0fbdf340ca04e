-- ===== src/Loader/Keys.antt =====
-- The menu of gnu-efi/bootloader/main.c over the firmware's keyboard, against the menu over a list
-- of keys.
use kess_os_paranoid_edition.Base.{
  ℕ, suc, ◌+◌, ◌≡◌, ◌∙◌, arith, Bool, true, false, Option, none, some, List, [], ◌∷◌, ◌&&◌, not,
  ◌==◌, if◌then◌else◌,
}
use kess_os_paranoid_edition.Outcome.{Outcome, done, out_of_fuel, Cmd}
use kess_os_paranoid_edition.Loader.{Menu, menu_round, menu_loop}
use kess_os_paranoid_edition.Loader.Draw.{menu_select_boot, menu_select_reboot}
use kess_os_paranoid_edition.Loader.Load.{framebuffer_at, font_at}
use kess_os_paranoid_edition.Loader.Firmware.{World, Uefi}
use kess_os_paranoid_edition.Loader.Boot.{Selection, key_round, menu_keys}

abbrev pub length : {A : Type 0} → List A → ℕ
length [] = 0
length (x ∷ xs) = suc (length xs)

-- What the menu relies on: each call of `ReadKeyStroke` takes the next of the keys that will be
-- pressed, and the reset command to the port 0x64 presses none.
pub record Keyboard {F : Type 0} (uefi : Uefi F) : Type 0 where
  pub queue : F → List (Option ℕ)
  pub resets : F → ℕ
  pub next_key :
      (w : World F) (key : Option ℕ) (keys : List (Option ℕ))
      → queue w.firmware ≡ key ∷ keys
      → ((uefi.read_key_stroke w).0 ≡ key)
        × (queue (uefi.read_key_stroke w).1.firmware ≡ keys)
        × (resets (uefi.read_key_stroke w).1.firmware ≡ resets w.firmware)
  pub reset :
      (w : World F)
      → (queue (uefi.out8 0x64 0xFE w).firmware ≡ queue w.firmware)
        × (resets (uefi.out8 0x64 0xFE w).firmware ≡ resets w.firmware + 1)

-- The variables of a menu, without what is on the screen and what the port was told.
abbrev pub view : Menu → Selection
view m = record { scan_code = m.scan_code; menu_entry = m.menu_entry; legacy_boot = m.legacy_boot }

module _ {F : Type 0} (uefi : Uefi F) (lfb font : ℕ) where
  -- What a round does to the machine.
  pub effect : Menu → World F → World F
  effect m w =
      if m.scan_code == 2 && not (m.menu_entry == 0)
      then record w {
        mem = menu_select_reboot (framebuffer_at w.mem lfb) (font_at w.mem font) w.mem;
      }
      else if m.scan_code == 1 && m.menu_entry == 0
      then record w { mem = menu_select_boot (framebuffer_at w.mem lfb) (font_at w.mem font) w.mem }
      else if m.scan_code == 3 && m.menu_entry == 0
      then uefi.out8 0x64 0xFE w
      else w

  pub key_round_lem :
      (m : Menu) (w : World F)
      → key_round uefi lfb font (view m) w
        ≡ done ((menu_round m).0, view (menu_round m).1) (effect m w)
  unfolding key_round menu_round effect
  key_round_lem m w = ground arith

  module _ (keyboard : Keyboard uefi) where
    open keyboard use {queue, resets, next_key, reset}

    effect_queue : (m : Menu) (w : World F) → queue (effect m w).firmware ≡ queue w.firmware
    unfolding effect
    effect_queue m w = ground (arith, reset w)

    effect_resets :
        (m : Menu) (w : World F)
        → resets w.firmware ≡ m.resets
        → resets (effect m w).firmware ≡ (menu_round m).1.resets
    unfolding effect menu_round
    effect_resets m w h = ground (arith, reset w)

    -- The runs agree: both are at their ends with the same variables, the same keys left and as
    -- many resets, or both still run where the keys end.
    pub data Simulates
        : Option (Menu × List (Option ℕ)) → Outcome (World F) Selection → Type 0 where
      stopped :
          {m : Menu} {keys : List (Option ℕ)} {w : World F}
          → queue w.firmware ≡ keys
          → resets w.firmware ≡ m.resets
          → Simulates (some (m, keys)) (done (view m) w)
      running : Simulates none out_of_fuel

    next :
        (keys : List (Option ℕ)) (round : Bool × Menu) (w : World F)
        → queue w.firmware ≡ keys
        → resets w.firmware ≡ round.1.resets
        → ((t : Menu) (v : World F)
            → queue v.firmware ≡ keys
            → resets v.firmware ≡ t.resets
            → Simulates (menu_loop keys t) (menu_keys uefi (length keys) lfb font (view t) v))
        → Simulates (if round.0 then menu_loop keys round.1 else some (round.1, keys)) (
            (elim round.0 as (λ x. Cmd (World F) Selection) [
              | true ↦ menu_keys uefi (length keys) lfb font (view round.1)
              | false ↦ done (view round.1)
            ])
              w)
    next keys (true, t) w q r rest = rest t w q r
    next keys (false, t) w q r rest = stopped q r

    -- Over a keyboard whose next keys are given, and whose keys the reset command leaves alone,
    -- the menu of the loader, with as much fuel as there are keys, ends exactly if the menu over
    -- the list of keys does, with the same selection, the same keys left and as many reset
    -- commands sent.
    pub menu_keys-Simulates :
        (keys : List (Option ℕ)) (m : Menu) (w : World F)
        → queue w.firmware ≡ keys
        → resets w.firmware ≡ m.resets
        → Simulates (menu_loop keys m) (menu_keys uefi (length keys) lfb font (view m) w)
    unfolding menu_loop menu_keys
    menu_keys-Simulates [] m w q r = running
    menu_keys-Simulates (none ∷ keys) m w q r =
        let (same, left, sent) = next_key w none keys q in
        let v = (uefi.read_key_stroke w).1 in
        rw (same, key_round_lem m v)
          (next keys (menu_round m) (effect m v) (effect_queue m v ∙ left)
            (effect_resets m v (sent ∙ r)) (menu_keys-Simulates keys))
    menu_keys-Simulates (some code ∷ keys) m w q r =
        let (same, left, sent) = next_key w (some code) keys q in
        let v = (uefi.read_key_stroke w).1 in
        let t : Menu = record m { scan_code = code } in
        rw (same, key_round_lem t v)
          (next keys (menu_round t) (effect t v) (effect_queue t v ∙ left)
            (effect_resets t v (sent ∙ r)) (menu_keys-Simulates keys))
