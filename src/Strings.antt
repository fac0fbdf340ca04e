-- ===== src/Strings.antt =====
-- kernel/src/util/impl/string.c: strings that end in a NUL byte, and numbers as text. A static
-- buffer is a memory of its own, indexed from 0, which keeps what earlier calls left in it.
pub mod Compare
pub mod Decimal
pub mod Digits
pub mod Hexadecimal
pub mod Number
pub mod Swap
mod Tests
use kess_os_paranoid_edition.Base.{
  ℕ, zero, suc, ◌+◌, ◌-◌, ◌*◌, ◌/◌, ◌%◌, ◌^◌, bit_and, Bool, true, false, Option, none, some, List,
  [], ◌∷◌, ◌&&◌, not, ltb, ◌==◌, if◌then◌else◌, u8, u32, ◌>>>◌,
}
use kess_os_paranoid_edition.Log.{codes}
use kess_os_paranoid_edition.Memory.{Memory, store8}

-- The loop of `strlen`, on fuel, at `size`: the byte is read, then `size` grows.
unfoldable pub strlen_loop : ℕ → Memory → ℕ → ℕ → Option ℕ
strlen_loop zero m str size = none
strlen_loop (suc fuel) m str size =
    let rest = strlen_loop fuel m str (size + 1) in
    if m (str + size) == 0 then some (size + 1 - 1) else rest

unfoldable pub strlen : ℕ → Memory → ℕ → Option ℕ
unfolding strlen_loop
strlen fuel m str = strlen_loop fuel m str 0

-- The loop of `strncpy` at `i`, with `left` rounds to go.
unfoldable pub strncpy_loop : ℕ → ℕ → ℕ → ℕ → Memory → Memory
unfolding store8
strncpy_loop zero dst src i m = m
strncpy_loop (suc left) dst src i m =
    let rest = strncpy_loop left dst src (i + 1) (store8 m (dst + i) (m (src + i))) in
    if m (src + i) == 0 then m else rest

unfoldable pub strncpy : ℕ → ℕ → ℕ → Memory → Memory
unfolding strncpy_loop
strncpy dst src len m = strncpy_loop (u8 len) dst src 0 m

-- The loop of `strncmp`, with `left` rounds of `n` to go: it ends early at a null pointer.
unfoldable pub strncmp_loop : ℕ → ℕ → ℕ → Memory → Bool
strncmp_loop zero s1 s2 m = true
strncmp_loop (suc left) s1 s2 m =
    let rest = strncmp_loop left (s1 + 1) (s2 + 1) m in
    if not (not (s1 == 0) && not (s2 == 0))
    then true
    else if not (m s1 == m s2)
    then false
    else rest

-- The result 1 is `true`, 0 is `false`.
unfoldable pub strncmp : ℕ → ℕ → ℕ → Memory → Bool
unfolding strncmp_loop
strncmp s1 s2 n m = strncmp_loop (u32 n) s1 s2 m

-- for (j = 0; j < i; j++, i--): the exchange that turns a buffer round, on fuel.
unfoldable pub swap_loop : ℕ → ℕ → ℕ → Memory → Memory
unfolding store8
swap_loop zero j i buf = buf
swap_loop (suc fuel) j i buf =
    let temp = buf j in
    let rest = swap_loop fuel (j + 1) (i - 1) (store8 (store8 buf j (buf i)) i temp) in
    if ltb j i then rest else buf

-- The loops that write the digits of a number, the lowest first, from index `i` on. They return
-- the index behind the last digit.
unfoldable pub dec_loop : ℕ → ℕ → ℕ → Memory → Option (ℕ × Memory)
unfolding store8
dec_loop zero number i buf = none
dec_loop (suc fuel) number i buf =
    let rest = dec_loop fuel (number / 10) (u8 (i + 1)) (store8 buf i (number % 10 + b'0')) in
    if ltb 0 number then rest else some (i, buf)

-- `ascii_numbers[nibble]`
unfoldable pub ascii_number : ℕ → ℕ
ascii_number nibble = if ltb nibble 10 then b'0' + nibble else b'A' + (nibble - 10)

unfoldable pub hex_loop : ℕ → ℕ → ℕ → Memory → Option (ℕ × Memory)
unfolding store8 ascii_number
hex_loop zero hex_num i buf = none
hex_loop (suc fuel) hex_num i buf =
    let nibble = bit_and (u8 hex_num) 0x0f in
    let rest = hex_loop fuel (hex_num >>> 4) (u8 (i + 1)) (store8 buf i (ascii_number nibble)) in
    if ltb 0 hex_num then rest else some (i, buf)

-- A C `int`: `negsuc n` is -(n + 1).
pub data ℤ : Type 0 where
  pos : ℕ → ℤ
  negsuc : ℕ → ℤ

-- The end of both functions: the NUL at `i`, and the text before it turned round.
unfoldable pub finish : ℕ → Memory → Memory
unfolding swap_loop store8
finish i buf = swap_loop i 0 (i - 1) (store8 buf i 0)

-- A positive number takes at most ten decimal digits, and eight hexadecimal ones.
abbrev pub dec_fuel : ℕ
dec_fuel = 11

abbrev pub hex_fuel : ℕ
hex_fuel = 9

-- `none` stands for a signed overflow, which C leaves undefined: `-number` of INT_MIN.
unfoldable pub dec2str : ℤ → Memory → Option Memory
unfolding finish
dec2str (pos zero) buf = some (finish 1 (store8 buf 0 b'0'))
dec2str (pos (suc n)) buf = elim (dec_loop dec_fuel (suc n) 0 buf) [
  | none ↦ none
  | some (i, buf') ↦ some (finish i buf')
]
dec2str (negsuc n) buf =
    if ltb n (2 ^ 31 - 1)
    then (elim (dec_loop dec_fuel (n + 1) 0 buf) [
      | none ↦ none
      | some (i, buf') ↦ some (finish (i + 1) (store8 buf' i b'-'))
    ])
    else none

-- `strncpy(hex_string, "0\0", 2)` copies the one digit.
unfoldable pub hex2str : ℕ → Memory → Option Memory
unfolding finish
hex2str hex_num buf =
    let start : ℕ × Memory = if hex_num == 0 then (1, store8 buf 0 b'0') else (0, buf) in
    elim (hex_loop hex_fuel hex_num start.0 start.1) [
      | none ↦ none
      | some (i, buf') ↦
          let padded : ℕ × Memory =
            if ltb hex_num 0x10 then (i + 1, store8 buf' i b'0') else (i, buf') in
          some (finish (padded.0 + 2) (store8 (store8 padded.1 padded.0 b'x') (padded.0 + 1) b'0'))
    ]
