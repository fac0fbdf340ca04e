-- ===== src/Loader/Requests.antt =====
-- What the parts of `efi_main` in gnu-efi/bootloader/main.c come back with: the requests return, and
-- the menu ends with a choice.
use kess_os_paranoid_edition.Base.{
  ℕ, zero, suc, ◌+◌, inl, inr, Bool, true, false, Bool-cases, Option, none, some, Option-cases,
  List, ◌==◌,
}
use kess_os_paranoid_edition.Memory.{load32}
use kess_os_paranoid_edition.Outcome.{Outcome, done, out_of_fuel, Cmd, Returns, back, through}
use kess_os_paranoid_edition.Loader.{is_font, Menu, menu_round}
use kess_os_paranoid_edition.Loader.Keys.{view, effect, key_round_lem}
use kess_os_paranoid_edition.Loader.Selection.{
  IsShown, IsChosen, Continues, on, off, menu_round-Continues,
}
use kess_os_paranoid_edition.Loader.Firmware.{World, Uefi}
use kess_os_paranoid_edition.Loader.Load.{
  init_gop, load_file, load_glyphs, load_font, load_segment, load_segments,
}
use kess_os_paranoid_edition.Loader.Boot.{Selection, menu_keys}

module _ {F : Type 0} (uefi : Uefi F) where
  found-Returns :
      (o : Option ℕ) (w : World F)
      → Returns {S = World F} {A = ℕ}
          ((elim o as (λ x. Cmd (World F) ℕ) [ none ↦ done 0 | some p ↦ done p ]) w)
  found-Returns none w = back
  found-Returns (some p) w = back

  pub load_file-Returns :
      (dir : ℕ) (path : List ℕ) (image : ℕ) (w : World F)
      → Returns (load_file uefi dir path image w)
  unfolding load_file
  load_file-Returns dir path image w = elim (Bool-cases (dir == 0)) [
    | inl e ↦ rw e (found-Returns _ _)
    | inr e ↦ rw e (found-Returns _ _)
  ]

  pub init_gop-Returns : (w : World F) → Returns (init_gop uefi w)
  unfolding init_gop
  init_gop-Returns w = elim (Option-cases (uefi.locate_graphics w).0) [
    | inl e ↦ rw e back
    | inr (gop, e) ↦ rw e back
  ]

  pub load_font-Returns :
      (dir : ℕ) (path : List ℕ) (image : ℕ) (w : World F)
      → Returns (load_font uefi dir path image w)
  unfolding load_font load_glyphs
  load_font-Returns dir path image w =
      through Returns (load_file uefi dir path image w) _ (load_file-Returns dir path image w)
        λ font v e. elim (Bool-cases (font == 0)) [
          | inl null ↦ rw null back
          | inr not_null ↦
              let header = (uefi.allocate_pool 4 v).0 in
              let m = (uefi.read font 4 header (uefi.allocate_pool 4 v).1).mem in
              elim (Bool-cases (is_font (m header) (m (header + 1)))) [
                | inl valid ↦ rw (not_null, valid) back
                | inr invalid ↦ rw (not_null, invalid) back
              ]
        ]

  load_segment-Returns : (kernel phdr : ℕ) (w : World F) → Returns (load_segment uefi kernel phdr w)
  unfolding load_segment
  load_segment-Returns kernel phdr w = elim (Bool-cases (load32 w.mem phdr == 1)) [
    | inl e ↦ rw e back
    | inr e ↦ rw e back
  ]

  pub load_segments-Returns :
      (kernel size left phdr : ℕ) (w : World F)
      → Returns (load_segments uefi kernel size left phdr w)
  unfolding load_segments
  load_segments-Returns kernel size zero phdr w = back
  load_segments-Returns kernel size (suc left) phdr w =
      through Returns (load_segment uefi kernel phdr w) _ (load_segment-Returns kernel phdr w)
        λ a v e. load_segments-Returns kernel size left (phdr + size) v

  -- The menu ends with a choice, or still runs.
  pub data Chose : Outcome (World F) Selection → Type 0 where
    chose : (m : Menu) (w : World F) → IsChosen m → Chose (done (view m) w)
    undecided : Chose out_of_fuel

  module _ (lfb font : ℕ) where
    next :
        (fuel : ℕ) (round : Bool × Menu) (w : World F)
        → Continues round
        → ((m : Menu) (v : World F) → IsShown m → Chose (menu_keys uefi fuel lfb font (view m) v))
        → Chose (
            (elim round.0 as (λ x. Cmd (World F) Selection) [
              | true ↦ menu_keys uefi fuel lfb font (view round.1)
              | false ↦ done (view round.1)
            ])
              w)
    next fuel round w (on h) rest = rest _ w h
    next fuel round w (off h) rest = chose _ _ h

    pub menu_keys-Chose :
        (fuel : ℕ) (m : Menu) (w : World F)
        → IsShown m
        → Chose (menu_keys uefi fuel lfb font (view m) w)
    unfolding menu_keys
    menu_keys-Chose zero m w h = undecided
    menu_keys-Chose (suc fuel) m w h =
        let v = (uefi.read_key_stroke w).1 in
        let step = λ (t : Menu) (shown : IsShown t).
          next fuel (menu_round t) (effect uefi lfb font t v) (menu_round-Continues t shown)
            (menu_keys-Chose fuel) in
        elim (Option-cases (uefi.read_key_stroke w).0) [
          | inl e ↦ rw (e, key_round_lem uefi lfb font m v) (step m h)
          | inr (code, e) ↦
              let t : Menu = record m { scan_code = code } in
              rw (e, key_round_lem uefi lfb font t v)
                (step t record { entry = h.entry; legacy = h.legacy })
        ]
