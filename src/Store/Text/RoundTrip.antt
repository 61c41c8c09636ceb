-- ===== src/Store/Text/RoundTrip.antt =====
-- A text is read back from its bytes.
use Prim.Native.Char.{Char, char, code, IsScalar}
use text.Mathlib.TextEquality.{Char-path}
use omoplata.Prelude.{
  ◌≡◌, refl, ap, ◌∙◌, inl, inr, ℕ, suc, ◌+◌, ◌-◌, ◌*◌, ◌/◌, ◌%◌, ◌<◌, ◌≤◌, String, Bool, true,
  false, Option, some, [], ◌∷◌, ◌++◌, All, ltb, lt→ltb, ltb-eq-false, Bool-cases, arith,
}
use omoplata.Git.Bytes.{Bytes, between, is_utf8, utf8_from}
use omoplata.Git.Text.Lines.{is_utf8-ascii}
use omoplata.Store.Text.{
  encode_char, as_bytes, IsScalar-low, IsScalar-high, scalar_char, to_char, with_char, cons_char,
  decode_from, from_utf8,
}
use omoplata.Store.Text.Utf8.{scalar-range, encode_char-utf8}

code-IsScalar : (c : Char) → IsScalar (code c)
code-IsScalar (char n scalar) = scalar

no_char_between : (n : ℕ) → IsScalar n → ltb n 0xd800 ≡ false → between 0xe000 n 0x10ffff ≡ true
no_char_between n scalar high = ground arith

scalar_char-code :
    (n : ℕ) (low : Bool) (l : ltb n 0xd800 ≡ low) (high : Bool)
    (h : between 0xe000 n 0x10ffff ≡ high)
    → (low ≡ false → high ≡ true)
    → (c : Char) × (scalar_char n low l high h ≡ some c) × (code c ≡ n)
scalar_char-code n true l high h scalar = (char n (IsScalar-low n l), refl, refl)
scalar_char-code n false l true h scalar = (char n (IsScalar-high n h), refl, refl)
scalar_char-code n false l false h scalar = absurd (cc (scalar refl))

to_char-code : (c : Char) → to_char (code c) ≡ some c
unfolding to_char
to_char-code c =
    let n = code c in
    let (c', made, same) =
      scalar_char-code n (ltb n 0xd800) refl (between 0xe000 n 0x10ffff) refl
        (no_char_between n (code-IsScalar c)) in
    made ∙ ap (λ (x : Char). some x) (Char-path c' c same)

cons_char-code : (c : Char) (s : String) → cons_char (code c) (some s) ≡ some (String.◌∷◌ c s)
unfolding cons_char
cons_char-code c s = ap (λ (o : Option Char). with_char o s) (to_char-code c)

one_byte :
    (acc b : ℕ) (bs : Bytes)
    → b < 0x80
    → decode_from 0 acc (b ∷ bs) ≡ cons_char b (decode_from 0 0 bs)
unfolding decode_from
one_byte acc b bs low = rw (lt→ltb b 0x80 low) refl

first_two :
    (acc b : ℕ) (bs : Bytes)
    → 0x80 ≤ b
    → b < 0xe0
    → decode_from 0 acc (b ∷ bs) ≡ decode_from 1 (b - 0xc0) bs
unfolding decode_from
first_two acc b bs low high = rw (ltb-eq-false b 0x80 low, lt→ltb b 0xe0 high) refl

first_three :
    (acc b : ℕ) (bs : Bytes)
    → 0xe0 ≤ b
    → b < 0xf0
    → decode_from 0 acc (b ∷ bs) ≡ decode_from 2 (b - 0xe0) bs
unfolding decode_from
first_three acc b bs low high =
    rw (ltb-eq-false b 0x80 (omega arith), ltb-eq-false b 0xe0 low, lt→ltb b 0xf0 high) refl

first_four :
    (acc b : ℕ) (bs : Bytes) → 0xf0 ≤ b → decode_from 0 acc (b ∷ bs) ≡ decode_from 3 (b - 0xf0) bs
unfolding decode_from
first_four acc b bs low =
    rw
      (
        ltb-eq-false b 0x80 (omega arith),
        ltb-eq-false b 0xe0 (omega arith),
        ltb-eq-false b 0xf0 low,
      )
      refl

last_byte :
    (acc n : ℕ) (bs : Bytes)
    → acc ≡ n / 64
    → decode_from 1 acc ((0x80 + n % 64) ∷ bs) ≡ cons_char n (decode_from 0 0 bs)
unfolding decode_from
last_byte acc n bs front =
    let whole : acc * 64 + (0x80 + n % 64 - 0x80) ≡ n = omega arith in
    ap (λ (m : ℕ). cons_char m (decode_from 0 0 bs)) whole

next_byte :
    (k acc m next : ℕ) (bs : Bytes)
    → acc ≡ m / 64
    → next ≡ m
    → decode_from (suc (suc k)) acc ((0x80 + m % 64) ∷ bs) ≡ decode_from (suc k) next bs
unfolding decode_from
next_byte k acc m next bs front same =
    let whole : acc * 64 + (0x80 + m % 64 - 0x80) ≡ next = omega arith in
    ap (λ (x : ℕ). decode_from (suc k) x bs) whole

decode-two :
    (n : ℕ) (rest : Bytes)
    → 0x80 ≤ n
    → n < 0x800
    → decode_from 0 0 ((0xc0 + n / 64) ∷ (0x80 + n % 64) ∷ rest)
      ≡ cons_char n (decode_from 0 0 rest)
decode-two n rest low high =
    first_two 0 (0xc0 + n / 64) ((0x80 + n % 64) ∷ rest) (omega arith) (omega arith)
    ∙ last_byte (0xc0 + n / 64 - 0xc0) n rest (omega arith)

decode-three :
    (n : ℕ) (rest : Bytes)
    → n < 0x10000
    → decode_from 0 0 ((0xe0 + n / 4096) ∷ (0x80 + n / 64 % 64) ∷ (0x80 + n % 64) ∷ rest)
      ≡ cons_char n (decode_from 0 0 rest)
decode-three n rest high =
    first_three 0 (0xe0 + n / 4096) ((0x80 + n / 64 % 64) ∷ (0x80 + n % 64) ∷ rest) (omega arith)
      (omega arith)
    ∙ next_byte 0 (0xe0 + n / 4096 - 0xe0) (n / 64) (n / 64) ((0x80 + n % 64) ∷ rest) (omega arith)
        refl
    ∙ last_byte (n / 64) n rest refl

decode-four :
    (n : ℕ) (rest : Bytes)
    → decode_from 0 0 (
        (0xf0 + n / 262144)
        ∷ (0x80 + n / 4096 % 64)
        ∷ (0x80 + n / 64 % 64)
        ∷ (0x80 + n % 64)
        ∷ rest)
      ≡ cons_char n (decode_from 0 0 rest)
decode-four n rest =
    first_four 0 (0xf0 + n / 262144)
      ((0x80 + n / 4096 % 64) ∷ (0x80 + n / 64 % 64) ∷ (0x80 + n % 64) ∷ rest) (omega arith)
    ∙ next_byte 1 (0xf0 + n / 262144 - 0xf0) (n / 4096) (n / 4096)
        ((0x80 + n / 64 % 64) ∷ (0x80 + n % 64) ∷ rest) (omega arith) refl
    ∙ next_byte 0 (n / 4096) (n / 64) (n / 64) ((0x80 + n % 64) ∷ rest) (omega arith) refl
    ∙ last_byte (n / 64) n rest refl

decode-encode_char :
    (n : ℕ) (rest : Bytes)
    → decode_from 0 0 (encode_char n ++ rest) ≡ cons_char n (decode_from 0 0 rest)
decode-encode_char n rest = elim (Bool-cases (ltb n 0x80)) [
  | inl one ↦ let small : n < 0x80 = ground arith in rw (one) (one_byte 0 n rest small)
  | inr more ↦ elim (Bool-cases (ltb n 0x800)) [
    | inl two ↦
        let low : 0x80 ≤ n = ground arith in
        let high : n < 0x800 = ground arith in rw (more, two) (decode-two n rest low high)
    | inr more' ↦ elim (Bool-cases (ltb n 0x10000)) [
      | inl three ↦
          let high : n < 0x10000 = ground arith in
          rw (more, more', three) (decode-three n rest high)
      | inr four ↦ rw (more, more', four) (decode-four n rest)
    ]
  ]
]

as_bytes-utf8 : (s : String) → is_utf8 (as_bytes s) ≡ true
unfolding as_bytes utf8_from
as_bytes-utf8 String.[] = refl
as_bytes-utf8 (String.◌∷◌ c s) =
    encode_char-utf8 (code c) (as_bytes s) (scalar-range (code c) (code-IsScalar c))
    ∙ as_bytes-utf8 s

decode-as_bytes : (s : String) → decode_from 0 0 (as_bytes s) ≡ some s
unfolding as_bytes decode_from
decode-as_bytes String.[] = refl
decode-as_bytes (String.◌∷◌ c s) =
    decode-encode_char (code c) (as_bytes s)
    ∙ ap (cons_char (code c)) (decode-as_bytes s)
    ∙ cons_char-code c s

-- A text is read back from its bytes.
pub from_utf8-as_bytes : (s : String) → from_utf8 (as_bytes s) ≡ some s
unfolding from_utf8
from_utf8-as_bytes s = rw (as_bytes-utf8 s) (decode-as_bytes s)

-- Bytes of ASCII are a text, with those bytes.
pub ascii_text :
    (bytes : Bytes)
    → All (λ (b : ℕ). b < 0x80) bytes
    → (s : String) × (decode_from 0 0 bytes ≡ some s) × (as_bytes s ≡ bytes)
unfolding decode_from as_bytes
ascii_text [] all = (String.[], refl, refl)
ascii_text (b ∷ bytes) (small, all) =
    let (s, read, written) = ascii_text bytes all in
    let c : Char = char b (IsScalar-low b (lt→ltb b 0xd800 (omega arith))) in
    (
      String.◌∷◌ c s,
      one_byte 0 b bytes small ∙ ap (cons_char b) read ∙ cons_char-code c s,
      rw (lt→ltb b 0x80 small) (ap (λ (t : Bytes). b ∷ t) written),
    )

pub from_utf8-ascii :
    (bytes : Bytes)
    → All (λ (b : ℕ). b < 0x80) bytes
    → (s : String) × (from_utf8 bytes ≡ some s) × (as_bytes s ≡ bytes)
unfolding from_utf8
from_utf8-ascii bytes all =
    let (s, read, written) = ascii_text bytes all in (s, rw (is_utf8-ascii bytes all) read, written)
