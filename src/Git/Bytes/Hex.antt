-- ===== src/Git/Bytes/Hex.antt =====
-- Four hexadecimal digits and back.
use omoplata.Prelude.{
  ◌≡◌, refl, ap, ◌∙◌, ℕ, ◌+◌, ◌*◌, ◌/◌, ◌%◌, ◌<◌, true, false, some, List, [], ◌∷◌, ltb, ◌==◌,
  nat_eq, arith,
}
use omoplata.Git.Bytes.{
  utf8_from, is_utf8, hex_value, hex_digits, from_str_radix16, hex_digit, hex4,
}

pub hex_value-hex_digit : (d : ℕ) → d < 16 → hex_value (hex_digit d) ≡ some d
hex_value-hex_digit d h = ground arith

hex_digit-ascii : (d : ℕ) → d < 16 → ltb (hex_digit d) 0x80 ≡ true
hex_digit-ascii d h = ground arith

pub hex_digit-ne-plus : (d : ℕ) → d < 16 → (hex_digit d == b'+') ≡ false
hex_digit-ne-plus d h = ground arith

pub hex_digits-step :
    (acc d : ℕ) (cs : List ℕ)
    → d < 16
    → hex_digits acc (hex_digit d ∷ cs) ≡ hex_digits (acc * 16 + d) cs
unfolding hex_digits
hex_digits-step acc d cs h = ground (arith, hex_value-hex_digit d h)

digits_end : (acc n : ℕ) → acc ≡ n → hex_digits acc [] ≡ some n
unfolding hex_digits
digits_end acc n e = ap some e

four_digits : (n : ℕ) → n < 65536 → hex_digits 0 (hex4 n) ≡ some n
four_digits n h =
    let a = n / 4096 in
    let b = n / 256 % 16 in
    let c = n / 16 % 16 in
    let acc2 = (0 * 16 + a) * 16 + b in
    hex_digits-step 0 a (hex_digit b ∷ hex_digit c ∷ hex_digit (n % 16) ∷ []) (omega arith)
    ∙ hex_digits-step (0 * 16 + a) b (hex_digit c ∷ hex_digit (n % 16) ∷ []) (omega arith)
    ∙ hex_digits-step acc2 c (hex_digit (n % 16) ∷ []) (omega arith)
    ∙ hex_digits-step (acc2 * 16 + c) (n % 16) [] (omega arith)
    ∙ digits_end ((acc2 * 16 + c) * 16 + n % 16) n (omega arith)

pub from_str_radix16-hex4 : (n : ℕ) → n < 65536 → from_str_radix16 (hex4 n) ≡ some n
unfolding from_str_radix16
from_str_radix16-hex4 n h = rw (hex_digit-ne-plus (n / 4096) (omega arith)) (four_digits n h)

utf8_from-step :
    (lo hi d : ℕ) (cs : List ℕ)
    → d < 16
    → utf8_from 0 lo hi (hex_digit d ∷ cs) ≡ utf8_from 0 0x80 0xbf cs
unfolding utf8_from
utf8_from-step lo hi d cs h = ground (arith, hex_digit-ascii d h)

utf8_end : utf8_from 0 0x80 0xbf [] ≡ true
unfolding utf8_from
utf8_end = refl

pub is_utf8-hex4 : (n : ℕ) → n < 65536 → is_utf8 (hex4 n) ≡ true
is_utf8-hex4 n h =
    let b = n / 256 % 16 in
    let c = n / 16 % 16 in
    let d = n % 16 in
    utf8_from-step 0x80 0xbf (n / 4096) (hex_digit b ∷ hex_digit c ∷ hex_digit d ∷ []) (omega arith)
    ∙ utf8_from-step 0x80 0xbf b (hex_digit c ∷ hex_digit d ∷ []) (omega arith)
    ∙ utf8_from-step 0x80 0xbf c (hex_digit d ∷ []) (omega arith)
    ∙ utf8_from-step 0x80 0xbf d [] (omega arith)
    ∙ utf8_end
