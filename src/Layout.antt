-- ===== src/Layout.antt =====
-- How a C compiler for x86-64 lays a struct out, and a field's value in memory. Acpi.Tables,
-- Loader.Structs and Kernel.Structs translate the structs of the sources.
use text.Mathlib.Text.{◌==◌ as text_eq}
use Prim.Native.String.{String}
use Prim.Native.Nat.{max}
use kess_os_paranoid_edition.Base.{
  ℕ, ◌+◌, ◌-◌, ◌*◌, ◌/◌, Bool, true, false, Option, none, some, List, [], ◌∷◌, ◌==◌, if◌then◌else◌,
}
use kess_os_paranoid_edition.Memory.{Memory, load16, load32, load64}

-- A type: its size and its alignment.
pub record CType : Type 0 where
  pub size : ℕ
  pub align : ℕ

abbrev pub uint8 : CType
uint8 = record { size = 1; align = 1 }

abbrev pub uint16 : CType
uint16 = record { size = 2; align = 2 }

abbrev pub uint32 : CType
uint32 = record { size = 4; align = 4 }

abbrev pub uint64 : CType
uint64 = record { size = 8; align = 8 }

abbrev pub pointer : CType
pointer = record { size = 8; align = 8 }

abbrev pub array : ℕ → CType → CType
array n t = record { size = n * t.size; align = t.align }

-- The fields in order; a packed struct has no padding.
pub record Struct : Type 0 where
  pub packed : Bool
  pub fields : List (String × CType)

abbrev pub round_up : Bool → ℕ → ℕ → ℕ
round_up true align at = at
round_up false align at = (at + align - 1) / align * align

-- Where a field lies, from the field that starts at or behind `at` on, and its size.
unfoldable pub place : Bool → ℕ → String → List (String × CType) → Option (ℕ × ℕ)
place packed at name [] = none
place packed at name ((n, t) ∷ rest) =
    let start = round_up packed t.align at in
    let behind = place packed (start + t.size) name rest in
    if text_eq n name then some (start, t.size) else behind

unfoldable pub end_of : Bool → ℕ → List (String × CType) → ℕ
end_of packed at [] = at
end_of packed at ((n, t) ∷ rest) = end_of packed (round_up packed t.align at + t.size) rest

abbrev pub greatest_align : List (String × CType) → ℕ
greatest_align [] = 1
greatest_align ((n, t) ∷ rest) = max t.align (greatest_align rest)

-- `sizeof`, and a struct as the type of a field of another.
unfoldable pub size_of : Struct → ℕ
unfolding end_of
size_of s =
    if s.packed
    then end_of true 0 s.fields
    else round_up false (greatest_align s.fields) (end_of false 0 s.fields)

unfoldable pub nested : Struct → CType
unfolding size_of
nested s = record { size = size_of s; align = if s.packed then 1 else greatest_align s.fields }

unfoldable pub load : ℕ → Memory → ℕ → ℕ
unfolding load16 load32 load64
load size m p =
    if size == 8
    then load64 m p
    else if size == 4
    then load32 m p
    else if size == 2
    then load16 m p
    else m p

-- The value of a field of the struct at `p`; an array or a struct has none.
unfoldable pub field : Struct → String → Memory → ℕ → ℕ
unfolding place load
field s name m p = elim (place s.packed 0 name s.fields) [
  | none ↦ 0
  | some (at, size) ↦ load size m (p + at)
]

-- `offsetof`
unfoldable pub offset_of : Struct → String → ℕ
unfolding place
offset_of s name = elim (place s.packed 0 name s.fields) [ none ↦ 0 | some (at, size) ↦ at ]
