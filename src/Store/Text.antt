-- ===== src/Store/Text.antt =====
-- What the store uses of Rust's `String`: its bytes, in UTF-8, and the reading of bytes as a text.
pub mod Utf8
pub mod RoundTrip
use Prim.Native.Char.{Char, char, code, IsScalar}
use Prim.Native.String
use text.Mathlib.TextEquality.{Char-path}
use omoplata.Prelude.{
  ◌≡◌, ◌⊎◌, refl, ap, sym, ◌∙◌, inl, inr, ℕ, zero, suc, ◌+◌, ◌-◌, ◌*◌, ◌/◌, ◌%◌, ◌<◌, ◌≤◌, String,
  Bool, true, false, Option, none, some, List, [], ◌∷◌, ◌++◌, ltb, Bool-cases, if◌then◌else◌, arith,
}
use omoplata.Git.Bytes.{Bytes, between, utf8_lead, utf8_from, is_utf8}

-- `char::encode_utf8` of a number.
abbrev pub encode_char : ℕ → Bytes
encode_char n =
    if ltb n 0x80
    then n ∷ []
    else if ltb n 0x800
    then (0xc0 + n / 64) ∷ (0x80 + n % 64) ∷ []
    else if ltb n 0x10000
    then (0xe0 + n / 4096) ∷ (0x80 + n / 64 % 64) ∷ (0x80 + n % 64) ∷ []
    else (0xf0 + n / 262144) ∷ (0x80 + n / 4096 % 64) ∷ (0x80 + n / 64 % 64) ∷ (0x80 + n % 64) ∷ []

-- `text.as_bytes()`
unfoldable pub as_bytes : String → Bytes
as_bytes String.[] = []
as_bytes (String.◌∷◌ c s) = encode_char (code c) ++ as_bytes s

pub IsScalar-low : (n : ℕ) → ltb n 0xd800 ≡ true → IsScalar n
IsScalar-low n h = ground arith

pub IsScalar-high : (n : ℕ) → between 0xe000 n 0x10ffff ≡ true → IsScalar n
IsScalar-high n h = ground arith

abbrev pub scalar_char :
    (n : ℕ) (low : Bool)
    → ltb n 0xd800 ≡ low
    → (high : Bool) → between 0xe000 n 0x10ffff ≡ high
    → Option Char
scalar_char n true l high h = some (char n (IsScalar-low n l))
scalar_char n false l true h = some (char n (IsScalar-high n h))
scalar_char n false l false h = none

-- `char::from_u32`
unfoldable pub to_char : ℕ → Option Char
to_char n = scalar_char n (ltb n 0xd800) refl (between 0xe000 n 0x10ffff) refl

abbrev pub with_char : Option Char → String → Option String
with_char none s = none
with_char (some c) s = some (String.◌∷◌ c s)

unfoldable pub cons_char : ℕ → Option String → Option String
unfolding to_char
cons_char n none = none
cons_char n (some s) = with_char (to_char n) s

-- The characters of bytes that are UTF-8: `n` more bytes belong to the character that is being read,
-- `acc` has the bits of those before.
unfoldable pub decode_from : (n acc : ℕ) → Bytes → Option String
unfolding cons_char
decode_from zero acc [] = some String.[]
decode_from (suc n) acc [] = none
decode_from zero acc (b ∷ bs) =
    let one = decode_from 0 0 bs in
    let two = decode_from 1 (b - 0xc0) bs in
    let three = decode_from 2 (b - 0xe0) bs in
    let four = decode_from 3 (b - 0xf0) bs in
    if ltb b 0x80
    then cons_char b one
    else if ltb b 0xe0
    then two
    else if ltb b 0xf0
    then three
    else four
decode_from (suc zero) acc (b ∷ bs) = cons_char (acc * 64 + (b - 0x80)) (decode_from 0 0 bs)
decode_from (suc (suc n)) acc (b ∷ bs) = decode_from (suc n) (acc * 64 + (b - 0x80)) bs

-- `std::str::from_utf8(bytes).ok()`
unfoldable pub from_utf8 : Bytes → Option String
unfolding decode_from
from_utf8 bytes = if is_utf8 bytes then decode_from 0 0 bytes else none
