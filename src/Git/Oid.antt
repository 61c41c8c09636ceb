-- ===== src/Git/Oid.antt =====
-- crates/omoplata-git/src/object.rs: object ids, and their hexadecimal form.
pub mod Hex
use omoplata.Prelude.{
  ℕ, ◌+◌, ◌/◌, ◌%◌, Bool, true, false, Option, none, some, List, [], ◌∷◌, ◌++◌, length, empty, ◌==◌,
  nat_eq, Result, ok, err, ◌>>=◌, ok_or, if◌then◌else◌,
}
use omoplata.Git.Bytes.{Bytes, from_str_radix16, hex_digit}
use omoplata.Git.Error.{GitError, malformed_oid}

-- The 20 bytes of a SHA-1.
abbrev pub GitOid : Type 0
GitOid = Bytes

-- `{b:02x}` of each byte
unfoldable pub hex_encode : Bytes → Bytes
hex_encode [] = []
hex_encode (b ∷ bytes) = hex_digit (b / 16) ∷ hex_digit (b % 16) ∷ hex_encode bytes

abbrev pub cons_some : Option ℕ → Option Bytes → Option Bytes
cons_some (some b) (some bytes) = some (b ∷ bytes)
cons_some _ _ = none

-- Two characters at a time; where a pair would cut a character in two, neither half is a digit.
unfoldable pub hex_pairs : Bytes → Option Bytes
hex_pairs [] = some []
hex_pairs (c ∷ []) = none
hex_pairs (c ∷ d ∷ cs) = cons_some (from_str_radix16 (c ∷ d ∷ [])) (hex_pairs cs)

unfoldable pub hex_decode : Bytes → Option Bytes
unfolding hex_pairs
hex_decode text = if empty text then none else hex_pairs text

unfoldable pub from_hex : Bytes → Result GitError GitOid
unfolding hex_decode
from_hex text = do
  bytes ← ok_or (hex_decode text) (malformed_oid text)
  if length bytes == 20 then ok bytes else err (malformed_oid text)
