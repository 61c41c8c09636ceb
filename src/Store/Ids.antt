-- ===== src/Store/Ids.antt =====
-- crates/omoplata-store/src/object.rs: object ids and their text form. A text is its bytes.
pub mod RoundTrip
use omoplata.Prelude.{
  ℕ, zero, suc, ◌+◌, Bool, true, false, ◌&&◌, Option, none, some, List, [], ◌∷◌, ◌++◌, length,
  empty, leb, ltb, ◌==◌, nat_eq, list_eq, Result, ok, err, ◌>>=◌, ok_or, if◌then◌else◌,
}
use omoplata.Git.Bytes.{Bytes, from_str_radix16}
use omoplata.Git.Oid.{hex_encode}
use omoplata.Git.Text.{find_byte}
use omoplata.Store.Error.{ObjectError, unknown_hash_alg, malformed_id, panicked}

pub data HashAlg : Type 0 where
  sha256 : HashAlg

abbrev pub sha256_text : Bytes
sha256_text = b's' ∷ b'h' ∷ b'a' ∷ b'2' ∷ b'5' ∷ b'6' ∷ []

unfoldable pub alg_str : HashAlg → Bytes
alg_str sha256 = sha256_text

unfoldable pub digest_len : HashAlg → ℕ
digest_len sha256 = 32

unfoldable pub parse_alg : Bytes → Result ObjectError HashAlg
parse_alg text = if text == sha256_text then ok sha256 else err (unknown_hash_alg text)

pub record ObjectId : Type 0 where
  pub alg : HashAlg
  pub digest : Bytes

-- `"<alg>:<hex>"`
unfoldable pub id_to_string : ObjectId → Bytes
unfolding alg_str
id_to_string id = alg_str id.alg ++ b':' ∷ hex_encode id.digest

-- Whether a text may be cut before what is left of it: not before a byte that continues a character.
unfoldable pub is_char_boundary : Bytes → Bool
is_char_boundary [] = true
is_char_boundary (b ∷ bs) = if leb 0x80 b then leb 0xc0 b else true

abbrev pub cons_digit :
    Option ℕ → Result ObjectError (Option Bytes) → Result ObjectError (Option Bytes)
cons_digit none rest = ok none
cons_digit (some b) (err e) = err e
cons_digit (some b) (ok none) = ok none
cons_digit (some b) (ok (some bytes)) = ok (some (b ∷ bytes))

-- The slices `&s[i..i + 2]`, one after the other, up to the first that is no number. The slice
-- panics where its end cuts a character; its start is the end of the one before.
unfoldable pub digit_pairs : Bytes → Result ObjectError (Option Bytes)
unfolding is_char_boundary
digit_pairs [] = ok (some [])
digit_pairs (c ∷ []) = ok none
digit_pairs (c ∷ d ∷ cs) =
    let rest = digit_pairs cs in
    if is_char_boundary cs then cons_digit (from_str_radix16 (c ∷ d ∷ [])) rest else err panicked

unfoldable pub is_even : ℕ → Bool
is_even zero = true
is_even (suc zero) = false
is_even (suc (suc n)) = is_even n

unfoldable pub hex_decode : Bytes → Result ObjectError (Option Bytes)
unfolding digit_pairs is_even
hex_decode text =
    if empty text then ok none else if is_even (length text) then digit_pairs text else ok none

-- `text.parse::<ObjectId>()`
unfoldable pub parse_id : Bytes → Result ObjectError ObjectId
unfolding hex_decode parse_alg digest_len
parse_id text = do
  (alg_s, hex) ← ok_or (find_byte b':' text) (malformed_id text)
  alg ← parse_alg alg_s
  decoded ← hex_decode hex
  digest ← ok_or decoded (malformed_id text)
  if length digest == digest_len alg
      then ok (record { alg = alg; digest = digest })
      else err (malformed_id text)
