-- ===== src/Git/Oid/Hex.antt =====
-- An object id is read back from its hexadecimal form.
use omoplata.Prelude.{
  ◌≡◌, refl, ap, ◌∙◌, ℕ, ◌+◌, ◌*◌, ◌/◌, ◌%◌, some, [], ◌∷◌, length, empty, All, nat_eq, ok, arith,
}
use omoplata.Git.Bytes.{Bytes, IsByte, hex_digit, hex_digits, from_str_radix16}
use omoplata.Git.Bytes.Hex.{hex_digits-step, hex_digit-ne-plus}
use omoplata.Git.Oid.{GitOid, hex_encode, hex_pairs, hex_decode, from_hex}

hex_digits-byte :
    (b : ℕ) → IsByte b → hex_digits 0 (hex_digit (b / 16) ∷ hex_digit (b % 16) ∷ []) ≡ some b
unfolding hex_digits
hex_digits-byte b small =
    hex_digits-step 0 (b / 16) (hex_digit (b % 16) ∷ []) (omega arith)
    ∙ hex_digits-step (0 * 16 + b / 16) (b % 16) [] (omega arith)
    ∙ ap some (omega arith)

pub from_str_radix16-byte :
    (b : ℕ) → IsByte b → from_str_radix16 (hex_digit (b / 16) ∷ hex_digit (b % 16) ∷ []) ≡ some b
unfolding from_str_radix16
from_str_radix16-byte b small =
    rw (hex_digit-ne-plus (b / 16) (omega arith)) (hex_digits-byte b small)

pub hex_pairs-hex_encode :
    (bytes : Bytes) → All IsByte bytes → hex_pairs (hex_encode bytes) ≡ some bytes
unfolding hex_pairs hex_encode
hex_pairs-hex_encode [] small = refl
hex_pairs-hex_encode (b ∷ bytes) (one, small) =
    rw (from_str_radix16-byte b one, hex_pairs-hex_encode bytes small)

hex_encode-empty : (bytes : Bytes) → empty (hex_encode bytes) ≡ empty bytes
unfolding hex_encode
hex_encode-empty [] = refl
hex_encode-empty (b ∷ bytes) = refl

-- The 20 bytes of an object id are read back from its hexadecimal form.
pub from_hex-hex_encode :
    (oid : GitOid) → All IsByte oid → length oid ≡ 20 → from_hex (hex_encode oid) ≡ ok oid
unfolding from_hex hex_decode
from_hex-hex_encode [] small twenty = absurd (omega arith)
from_hex-hex_encode (b ∷ oid) small twenty =
    rw (hex_encode-empty (b ∷ oid), hex_pairs-hex_encode (b ∷ oid) small, twenty)
