-- ===== src/Loader/Tests.antt =====
-- Tests of gnu-efi/bootloader/main.c.
use kess_os_paranoid_edition.Base.{
  ℕ, ◌+◌, ◌≡◌, refl, true, false, Option, some, none, List, [], ◌∷◌, ◌++◌, ◌==◌, if◌then◌else◌,
}
use kess_os_paranoid_edition.Log.{codes}
use kess_os_paranoid_edition.Memory.{Memory, load16, load32, load64}
use kess_os_paranoid_edition.Strings.{ℤ, pos}
use kess_os_paranoid_edition.Loader.{
  memcmp, memcmp_loop, strlen, is_font, Menu, menu_loop, menu_start, find_rsdp,
}
use kess_os_paranoid_edition.Loader.Compare.{Compared, memcmp-Compared}
use kess_os_paranoid_edition.Loader.Selection.{
  Selected, HasEnded, menu_start-Selected, menu_start-HasEnded,
}
use kess_os_paranoid_edition.Screen.{Framebuffer}
use kess_os_paranoid_edition.Loader.Rsdp.{IsFound, find_rsdp-IsFound}

abbrev put : ℕ → List ℕ → Memory → Memory
put p [] m = m
put p (c ∷ cs) m = put (p + 1) cs (λ q. if q == p then c else m q)

-- Two texts, "ab" and "az".
abbrev texts : Memory
texts = put 10 (codes "ab") (put 20 (codes "az") (λ q. 0))

memcmp-Compared_example : Compared texts 10 20 2 0 (memcmp texts 10 20 2)
memcmp-Compared_example = memcmp-Compared texts 10 20 2

length : strlen 3 texts 10 ≡ some 3
unfolding strlen
length = refl

-- Down, the right arrow, up, no key, and the right arrow.
abbrev keys : List (Option ℕ)
keys = some 2 ∷ some 3 ∷ some 1 ∷ none ∷ some 3 ∷ some 9 ∷ []

outcome : Option (Menu × List (Option ℕ)) → ℕ × ℕ × List (Option ℕ)
outcome none = (9, 9, [])
outcome (some (s, rest)) = (s.legacy_boot, s.resets, rest)

menus :
    (outcome (menu_loop keys (menu_start 0)) ≡ (0, 1, some 9 ∷ []))
    × (outcome (menu_loop (none ∷ some 7 ∷ []) (menu_start 4)) ≡ (1, 0, some 7 ∷ []))
unfolding outcome menu_loop
menus = (refl, refl)

menu_start-Selected_example : Selected (menu_loop keys (menu_start 0))
menu_start-Selected_example = menu_start-Selected keys 0

menu_start-HasEnded_example :
    HasEnded (menu_loop ((some 2 ∷ []) ++ (some 1 ∷ some 3 ∷ [])) (menu_start 0))
menu_start-HasEnded_example = menu_start-HasEnded (some 2 ∷ []) [] 0

-- Two tables at 1000, the second of which points to an RSDP at 500. CompareGuid tells whether the
-- first byte differs from 0.
abbrev firmware : Memory
firmware = put 300 (codes "RSD PTR ") (
    put 500 (codes "RSD PTR ")
      (put 1000 (1 ∷ []) (put 1040 (244 ∷ 1 ∷ []) (put 1048 (2 ∷ []) (λ q. 0)))))

abbrev compare_guid : Memory → ℕ → ℤ
compare_guid m p = pos (m p)

find_rsdp_result : find_rsdp compare_guid 300 2 firmware 1000 ≡ 500
unfolding find_rsdp memcmp memcmp_loop load64 load32 load16
find_rsdp_result = refl

find_rsdp-IsFound_example :
    IsFound compare_guid 300 firmware 1000 2 (find_rsdp compare_guid 300 2 firmware 1000)
find_rsdp-IsFound_example = find_rsdp-IsFound compare_guid 300 firmware 1000 2

-- The magic bytes of PSF1 are taken, and so are many others.
fonts : (is_font 0x36 0x04 ≡ true) × (is_font 0x02 0xFF ≡ true) × (is_font 0x36 0x00 ≡ false)
unfolding is_font
fonts = (refl, refl, refl)

-- A small screen.
abbrev lfb : Framebuffer
lfb = record { base_addr = 0x1000; buffer_size = 960; width = 10; height = 20; ppsl = 12 }
