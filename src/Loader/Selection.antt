-- ===== src/Loader/Selection.antt =====
-- The boot menu of gnu-efi/bootloader/main.c.
use kess_os_paranoid_edition.Base.{
  ℕ, ◌≡◌, refl, arith, Bool, Bool-cases, inl, inr, true, false, ◌==◌, if◌then◌else◌, Option, some,
  none, List, [], ◌∷◌, ◌++◌, ◌⊎◌,
}
use kess_os_paranoid_edition.Loader.{
  Menu, boot_menu, reboot_menu, menu_round, menu_loop, menu_start,
}

-- The menu that is drawn marks the entry that is chosen, and legacy support is off.
pub record IsShown (s : Menu) : Type 0 where
  pub entry :
      ((s.menu_entry ≡ 1) × (s.screen ≡ boot_menu))
      ⊎ ((s.menu_entry ≡ 0) × (s.screen ≡ reboot_menu))
  pub legacy : s.legacy_boot ≡ 0

-- The choice that ends the loop.
pub record IsChosen (s : Menu) : Type 0 where
  pub entry : s.menu_entry ≡ 1
  pub screen : s.screen ≡ boot_menu
  pub key : ((s.scan_code ≡ 3) × (s.legacy_boot ≡ 0)) ⊎ ((s.scan_code ≡ 4) × (s.legacy_boot ≡ 1))

-- A round goes on with a consistent menu, or ends with the boot entry chosen.
pub data Continues : Bool × Menu → Type 0 where
  on : {s : Menu} → IsShown s → Continues (true, s)
  off : {s : Menu} → IsChosen s → Continues (false, s)

-- A round with either entry chosen.
module _ (s : Menu) (legacy : s.legacy_boot ≡ 0) where
  from_boot : s.menu_entry ≡ 1 → s.screen ≡ boot_menu → Continues (menu_round s)
  unfolding menu_round
  from_boot e shown = simp e (elim (Bool-cases (s.scan_code == 2)) [
    | inl two ↦ rw two (on record { entry = inr (refl, refl); legacy = legacy })
    | inr not_two ↦ elim (Bool-cases (s.scan_code == 3)) [
      | inl three ↦
          let not_one : s.scan_code == 1 ≡ false = ground arith in
          rw (not_two, not_one, three)
            (off record { entry = e; screen = shown; key = inl (ground arith, legacy) })
      | inr not_three ↦ elim (Bool-cases (s.scan_code == 4)) [
        | inl four ↦
            let not_one : s.scan_code == 1 ≡ false = ground arith in
            rw (not_two, not_one, not_three, four)
              (off record { entry = refl; screen = shown; key = inr (ground arith, refl) })
        | inr not_four ↦ elim (Bool-cases (s.scan_code == 1)) [
          | inl one ↦ rw (not_two, one, not_three, not_four) stays
          | inr not_one ↦ rw (not_two, not_one, not_three, not_four) stays
        ]
      ]
    ]
  ])
    where
      stays : Continues (true, s)
      stays = on record { entry = inl (e, shown); legacy = legacy }

  from_reboot : s.menu_entry ≡ 0 → s.screen ≡ reboot_menu → Continues (menu_round s)
  unfolding menu_round
  from_reboot e shown = simp e (elim (Bool-cases (s.scan_code == 1)) [
    | inl one ↦
        let not_two : s.scan_code == 2 ≡ false = ground arith in
        rw (not_two, one) (on record { entry = inl (refl, refl); legacy = legacy })
    | inr not_one ↦ elim (Bool-cases (s.scan_code == 3)) [
      | inl three ↦
          let not_two : s.scan_code == 2 ≡ false = ground arith in
          rw (not_two, not_one, three) (on record { entry = inr (refl, shown); legacy = legacy })
      | inr not_three ↦ elim (Bool-cases (s.scan_code == 2)) [
        | inl two ↦
            let not_four : s.scan_code == 4 ≡ false = ground arith in
            rw (two, not_one, not_three, not_four) stays
        | inr not_two ↦ elim (Bool-cases (s.scan_code == 4)) [
          | inl four ↦ rw (not_two, not_one, not_three, four) stays
          | inr not_four ↦ rw (not_two, not_one, not_three, not_four) stays
        ]
      ]
    ]
  ])
    where
      stays : Continues (true, s)
      stays = on record { entry = inr (e, shown); legacy = legacy }

pub menu_round-Continues : (s : Menu) → IsShown s → Continues (menu_round s)
menu_round-Continues s h = elim h.entry [
  | inl (e, shown) ↦ from_boot s h.legacy e shown
  | inr (e, shown) ↦ from_reboot s h.legacy e shown
]

-- The end of the loop, if the input reaches it.
pub data Selected : Option (Menu × List (Option ℕ)) → Type 0 where
  chosen : {s : Menu} {keys : List (Option ℕ)} → IsChosen s → Selected (some (s, keys))
  waiting : Selected none

module _ (keys : List (Option ℕ)) where
  selected_next :
      (r : Bool × Menu)
      → Continues r
      → ((t : Menu) → IsShown t → Selected (menu_loop keys t))
      → Selected (if r.0 then menu_loop keys r.1 else some (r.1, keys))
  selected_next r (on h) next = next _ h
  selected_next r (off h) next = chosen h

abbrev pub after_read : Option ℕ → Menu → Menu
after_read key s = elim key [ none ↦ s | some code ↦ record s { scan_code = code } ]

pub after_read-IsShown : (key : Option ℕ) (s : Menu) → IsShown s → IsShown (after_read key s)
after_read-IsShown none s h = h
after_read-IsShown (some code) s h = record { entry = h.entry; legacy = h.legacy }

menu_loop-Selected : (keys : List (Option ℕ)) (s : Menu) → IsShown s → Selected (menu_loop keys s)
unfolding menu_loop
menu_loop-Selected [] s h = waiting
menu_loop-Selected (key ∷ keys) s h =
    selected_next keys (menu_round (after_read key s))
      (menu_round-Continues (after_read key s) (after_read-IsShown key s h))
      (menu_loop-Selected keys)

-- Whatever the keys and the first content of Key, the menu loop only ends with the boot entry
-- chosen and on the screen: by the right arrow without legacy support, or by the left arrow with
-- it.
pub menu_start-Selected :
    (keys : List (Option ℕ)) (scan_code : ℕ) → Selected (menu_loop keys (menu_start scan_code))
menu_start-Selected keys scan_code =
    menu_loop-Selected keys (menu_start scan_code)
      record { entry = inl (refl, refl); legacy = refl }

-- The loop has ended.
pub data HasEnded : Option (Menu × List (Option ℕ)) → Type 0 where
  ended : {r : Menu × List (Option ℕ)} → HasEnded (some r)

ends_now :
    (rest : List (Option ℕ)) (s : Menu)
    → IsShown s
    → HasEnded (menu_loop (some 1 ∷ some 3 ∷ rest) s)
unfolding menu_loop menu_round
ends_now rest s h = elim h.entry [ inl (e, shown) ↦ simp e ended | inr (e, shown) ↦ simp e ended ]

ends_next :
    (keys : List (Option ℕ)) (r : Bool × Menu)
    → Continues r
    → ((t : Menu) → IsShown t → HasEnded (menu_loop keys t))
    → HasEnded (if r.0 then menu_loop keys r.1 else some (r.1, keys))
ends_next keys r (on h) next = next _ h
ends_next keys r (off h) next = ended

ends_after :
    (keys rest : List (Option ℕ)) (s : Menu)
    → IsShown s
    → HasEnded (menu_loop (keys ++ (some 1 ∷ some 3 ∷ rest)) s)
unfolding menu_loop
ends_after [] rest s h = ends_now rest s h
ends_after (key ∷ keys) rest s h =
    ends_next (keys ++ (some 1 ∷ some 3 ∷ rest)) (menu_round (after_read key s))
      (menu_round-Continues (after_read key s) (after_read-IsShown key s h)) (ends_after keys rest)

-- After any keys, the up arrow and the right arrow end the menu loop.
pub menu_start-HasEnded :
    (keys rest : List (Option ℕ)) (scan_code : ℕ)
    → HasEnded (menu_loop (keys ++ (some 1 ∷ some 3 ∷ rest)) (menu_start scan_code))
menu_start-HasEnded keys rest scan_code =
    ends_after keys rest (menu_start scan_code) record { entry = inl (refl, refl); legacy = refl }
