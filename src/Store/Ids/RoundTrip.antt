-- ===== src/Store/Ids/RoundTrip.antt =====
-- An object id is read back from its text, and a text is read as the id that it shows.
use omoplata.Prelude.{
  ◌≡◌, refl, ℕ, ◌/◌, ◌%◌, ◌<◌, true, some, [], ◌∷◌, ◌++◌, length, All, nat_eq, ok, ◌≤◌, ◌>>=◌,
  arith,
}
use omoplata.Git.Bytes.{Bytes, IsByte, hex_digit}
use omoplata.Git.Oid.{hex_encode}
use omoplata.Git.Oid.Hex.{from_str_radix16-byte}
use omoplata.Git.Text.Find.{Lacks, find_byte-append}
use omoplata.Store.Ids.{
  HashAlg, ObjectId, sha256, alg_str, sha256_text, digest_len, id_to_string, is_char_boundary,
  digit_pairs, is_even, hex_decode, parse_alg, parse_id,
}

-- What the digest of SHA-256 is: 32 bytes.
abbrev pub IsId : ObjectId → Type 0
IsId id = All IsByte id.digest × (length id.digest ≡ 32)

hex_digit-boundary : (d : ℕ) (cs : Bytes) → d < 16 → is_char_boundary (hex_digit d ∷ cs) ≡ true
unfolding is_char_boundary
hex_digit-boundary d cs h = ground arith

hex_encode-boundary :
    (bytes : Bytes) → All IsByte bytes → is_char_boundary (hex_encode bytes) ≡ true
unfolding hex_encode is_char_boundary
hex_encode-boundary [] small = refl
hex_encode-boundary (b ∷ bytes) (one, small) =
    hex_digit-boundary (b / 16) (hex_digit (b % 16) ∷ hex_encode bytes) (omega arith)

digit_pairs-hex_encode :
    (bytes : Bytes) → All IsByte bytes → digit_pairs (hex_encode bytes) ≡ ok (some bytes)
unfolding digit_pairs hex_encode
digit_pairs-hex_encode [] small = refl
digit_pairs-hex_encode (b ∷ bytes) (one, small) = rw (
  hex_encode-boundary bytes small,
  from_str_radix16-byte b one,
  digit_pairs-hex_encode bytes small,
)

is_even-hex_encode : (bytes : Bytes) → is_even (length (hex_encode bytes)) ≡ true
unfolding hex_encode is_even
is_even-hex_encode [] = refl
is_even-hex_encode (b ∷ bytes) = is_even-hex_encode bytes

hex_decode-hex_encode :
    (b : ℕ) (bytes : Bytes)
    → All IsByte (b ∷ bytes)
    → hex_decode (hex_encode (b ∷ bytes)) ≡ ok (some (b ∷ bytes))
unfolding hex_decode hex_encode
hex_decode-hex_encode b bytes (one, small) = rw (
  is_even-hex_encode bytes,
  hex_encode-boundary bytes small,
  from_str_radix16-byte b one,
  digit_pairs-hex_encode bytes small,
)

hex_of :
    (digest : Bytes)
    → All IsByte digest
    → length digest ≡ 32
    → hex_decode (hex_encode digest) ≡ ok (some digest)
hex_of [] small all = absurd (omega arith)
hex_of (b ∷ digest) small all = hex_decode-hex_encode b digest small

sha256-Lacks : Lacks b':' sha256_text
sha256-Lacks = (refl, (refl, (refl, (refl, (refl, (refl, tt))))))

read_back :
    (alg : HashAlg) (digest : Bytes)
    → All IsByte digest
    → length digest ≡ 32
    → parse_id (id_to_string (record { alg = alg; digest = digest }))
      ≡ ok (record { alg = alg; digest = digest })
unfolding parse_id id_to_string alg_str digest_len parse_alg
read_back sha256 digest small all =
    rw
      (
        find_byte-append b':' sha256_text (hex_encode digest) sha256-Lacks,
        ◌>>=◌,
        hex_of digest small all,
        ◌>>=◌,
        all,
      )
      refl

-- An id with a digest of 32 bytes is read back from its text.
pub parse_id-id_to_string : (id : ObjectId) → IsId id → parse_id (id_to_string id) ≡ ok id
parse_id-id_to_string id (small, all) = read_back id.alg id.digest small all

-- A character of ASCII from the digits on: neither a blank nor a control character.
abbrev pub IsVisible : ℕ → Type 0
IsVisible b = (b'0' ≤ b) × (b < 0x80)

IsVisible-Lacks : (sep : ℕ) (text : Bytes) → sep < b'0' → All IsVisible text → Lacks sep text
IsVisible-Lacks sep [] low all = tt
IsVisible-Lacks sep (b ∷ text) low ((high, small), all) =
    (ground arith, IsVisible-Lacks sep text low all)

IsVisible-append : (xs ys : Bytes) → All IsVisible xs → All IsVisible ys → All IsVisible (xs ++ ys)
IsVisible-append [] ys front back = back
IsVisible-append (x ∷ xs) ys (one, front) back = (one, IsVisible-append xs ys front back)

hex_digit-IsVisible : (d : ℕ) → d < 16 → IsVisible (hex_digit d)
hex_digit-IsVisible d h = (ground arith, ground arith)

hex_encode-IsVisible : (bytes : Bytes) → All IsByte bytes → All IsVisible (hex_encode bytes)
unfolding hex_encode
hex_encode-IsVisible [] small = tt
hex_encode-IsVisible (b ∷ bytes) (one, small) = (
  hex_digit-IsVisible (b / 16) (omega arith),
  (hex_digit-IsVisible (b % 16) (omega arith), hex_encode-IsVisible bytes small),
)

alg_str-IsVisible : (alg : HashAlg) → All IsVisible (alg_str alg)
unfolding alg_str
alg_str-IsVisible sha256 = ground arith

-- The characters of an id's text are visible ones of ASCII.
pub id_to_string-IsVisible :
    (id : ObjectId) → All IsByte id.digest → All IsVisible (id_to_string id)
unfolding id_to_string
id_to_string-IsVisible id small =
    IsVisible-append (alg_str id.alg) (b':' ∷ hex_encode id.digest) (alg_str-IsVisible id.alg)
      ((omega arith, omega arith), hex_encode-IsVisible id.digest small)

pub id_to_string-Lacks :
    (sep : ℕ) (id : ObjectId) → sep < b'0' → All IsByte id.digest → Lacks sep (id_to_string id)
id_to_string-Lacks sep id low small =
    IsVisible-Lacks sep (id_to_string id) low (id_to_string-IsVisible id small)

IsVisible-ascii : (text : Bytes) → All IsVisible text → All (λ (b : ℕ). b < 0x80) text
IsVisible-ascii [] all = tt
IsVisible-ascii (b ∷ text) ((high, small), all) = (small, IsVisible-ascii text all)

pub id_to_string-ascii :
    (id : ObjectId) → All IsByte id.digest → All (λ (b : ℕ). b < 0x80) (id_to_string id)
id_to_string-ascii id small = IsVisible-ascii (id_to_string id) (id_to_string-IsVisible id small)
