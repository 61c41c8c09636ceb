-- ===== src/Git/Bytes.antt =====
-- Bytes as numbers below 256, and what the git formats use of Rust's text functions: the check of
-- UTF-8 and the reading of hexadecimal numbers.
pub mod Hex
use omoplata.Prelude.{
  ℕ, zero, suc, ◌+◌, ◌-◌, ◌*◌, ◌/◌, ◌%◌, ◌<◌, Bool, true, false, ◌&&◌, ◌||◌, Option, none, some,
  List, [], ◌∷◌, leb, ltb, ◌==◌, nat_eq, All, if◌then◌else◌,
}

abbrev pub Bytes : Type 0
Bytes = List ℕ

abbrev pub IsByte : ℕ → Type 0
IsByte b = b < 256

abbrev pub between : ℕ → ℕ → ℕ → Bool
between lo b hi = leb lo b && leb b hi

-- How many bytes have to follow a first byte, and the range of the next one; `none` refuses it.
abbrev pub utf8_lead : ℕ → Option (ℕ × ℕ × ℕ)
utf8_lead b =
    if ltb b 0x80
    then some (0, 0x80, 0xbf)
    else if between 0xc2 b 0xdf
    then some (1, 0x80, 0xbf)
    else if b == 0xe0
    then some (2, 0xa0, 0xbf)
    else if b == 0xed
    then some (2, 0x80, 0x9f)
    else if between 0xe1 b 0xef
    then some (2, 0x80, 0xbf)
    else if b == 0xf0
    then some (3, 0x90, 0xbf)
    else if between 0xf1 b 0xf3
    then some (3, 0x80, 0xbf)
    else if b == 0xf4
    then some (3, 0x80, 0x8f)
    else none

-- `n` bytes have to follow, the next one from `lo` to `hi`.
unfoldable pub utf8_from : ℕ → ℕ → ℕ → Bytes → Bool
utf8_from zero lo hi [] = true
utf8_from (suc n) lo hi [] = false
utf8_from zero lo hi (b ∷ bs) = elim (utf8_lead b) [
  | some (n, lo', hi') ↦ utf8_from n lo' hi' bs
  | none ↦ false
]
utf8_from (suc n) lo hi (b ∷ bs) = let more = utf8_from n 0x80 0xbf bs in between lo b hi && more

-- `std::str::from_utf8(bytes).is_ok()`
abbrev pub is_utf8 : Bytes → Bool
is_utf8 bytes = utf8_from 0 0x80 0xbf bytes

-- `char::to_digit(16)`
abbrev pub hex_value : ℕ → Option ℕ
hex_value c =
    if between b'0' c b'9'
    then some (c - b'0')
    else if between b'a' c b'f'
    then some (c - b'a' + 10)
    else if between b'A' c b'F'
    then some (c - b'A' + 10)
    else none

unfoldable pub hex_digits : ℕ → Bytes → Option ℕ
hex_digits acc [] = some acc
hex_digits acc (c ∷ cs) = elim (hex_value c) [ some d ↦ hex_digits (acc * 16 + d) cs | none ↦ none ]

-- `usize::from_str_radix(s, 16)` on a text too short to overflow: one sign `+` may stand before
-- the digits, of which there has to be one.
unfoldable pub from_str_radix16 : Bytes → Option ℕ
unfolding hex_digits
from_str_radix16 [] = none
from_str_radix16 (c ∷ []) = hex_digits 0 (c ∷ [])
from_str_radix16 (c ∷ d ∷ cs) =
    if c == b'+' then hex_digits 0 (d ∷ cs) else hex_digits 0 (c ∷ d ∷ cs)

-- A digit as `{:x}` writes it.
abbrev pub hex_digit : ℕ → ℕ
hex_digit d = if ltb d 10 then b'0' + d else b'a' + (d - 10)

-- `format!("{n:04x}")` of a number below 2^16, which has at most four digits.
abbrev pub hex4 : ℕ → Bytes
hex4 n =
    hex_digit (n / 4096)
    ∷ hex_digit (n / 256 % 16)
    ∷ hex_digit (n / 16 % 16)
    ∷ hex_digit (n % 16)
    ∷ []
