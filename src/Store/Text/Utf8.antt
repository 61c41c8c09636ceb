-- ===== src/Store/Text/Utf8.antt =====
-- The bytes of a character are UTF-8, and are read as that character.
use Prim.Native.Char.{IsScalar}
use omoplata.Prelude.{
  ◌≡◌, ◌⊎◌, refl, ap, ◌∙◌, inl, inr, ℕ, suc, ◌+◌, ◌/◌, ◌%◌, ◌<◌, ◌≤◌, true, some, ◌∷◌, ◌++◌, ltb,
  Bool-cases, arith,
}
use omoplata.Git.Bytes.{Bytes, between, utf8_lead, utf8_from, is_utf8}
use omoplata.Git.Text.Lines.{utf8_from-lead, ascii-lead}
use omoplata.Store.Text.{encode_char}

utf8_next :
    (n lo hi b : ℕ) (rest : Bytes)
    → between lo b hi ≡ true
    → utf8_from (suc n) lo hi (b ∷ rest) ≡ utf8_from n 0x80 0xbf rest
unfolding utf8_from
utf8_next n lo hi b rest within = rw (within) refl

within : (lo b hi : ℕ) → lo ≤ b → b ≤ hi → between lo b hi ≡ true
within lo b hi low high = ground arith

continued : (n : ℕ) → between 0x80 (0x80 + n % 64) 0xbf ≡ true
continued n = within 0x80 (0x80 + n % 64) 0xbf (omega arith) (omega arith)

lead_two : (b : ℕ) → 0xc2 ≤ b → b ≤ 0xdf → utf8_lead b ≡ some (1, 0x80, 0xbf)
lead_two b low high = ground arith

lead_three :
    (b : ℕ) → 0xe1 ≤ b → b ≤ 0xef → (b < 0xed) ⊎ (0xed < b) → utf8_lead b ≡ some (2, 0x80, 0xbf)
lead_three b low high other = ground arith

lead_four : (b : ℕ) → 0xf1 ≤ b → b ≤ 0xf3 → utf8_lead b ≡ some (3, 0x80, 0xbf)
lead_four b low high = ground arith

abbrev Starts : ℕ → ℕ → ℕ → Type 0
Starts n a b = (lo hi : ℕ) × (utf8_lead a ≡ some (n, lo, hi)) × (between lo b hi ≡ true)

three-Starts :
    (n : ℕ)
    → 0x800 ≤ n
    → n < 0x10000
    → (n < 0xd800) ⊎ (0xe000 ≤ n)
    → Starts 2 (0xe0 + n / 4096) (0x80 + n / 64 % 64)
three-Starts n low high scalar = elim (Bool-cases (ltb n 0x1000)) [
  | inl small ↦
      let bound : n < 0x1000 = ground arith in
      let first : 0xe0 + n / 4096 ≡ 0xe0 = omega arith in
      (
        0xa0,
        0xbf,
        ap utf8_lead first,
        within 0xa0 (0x80 + n / 64 % 64) 0xbf (omega arith) (omega arith),
      )
  | inr big ↦
      let bound : 0x1000 ≤ n = ground arith in
      elim (Bool-cases (between 0xd000 n 0xdfff)) [
        | inl near ↦
            let here : (0xd000 ≤ n) × (n < 0xd800) = ground arith in
            let (from, to) = here in
            let first : 0xe0 + n / 4096 ≡ 0xed = omega arith in
            (
              0x80,
              0x9f,
              ap utf8_lead first,
              within 0x80 (0x80 + n / 64 % 64) 0x9f (omega arith) (omega arith),
            )
        | inr far ↦
            let apart : (n < 0xd000) ⊎ (0xdfff < n) = ground arith in
            (
              0x80,
              0xbf,
              lead_three (0xe0 + n / 4096) (omega arith) (omega arith)
                  (elim apart [ inl below ↦ inl (omega arith) | inr above ↦ inr (omega arith) ]),
              continued (n / 64),
            )
      ]
]

four-Starts :
    (n : ℕ) → 0x10000 ≤ n → n < 0x110000 → Starts 3 (0xf0 + n / 262144) (0x80 + n / 4096 % 64)
four-Starts n low high = elim (Bool-cases (ltb n 0x40000)) [
  | inl small ↦
      let bound : n < 0x40000 = ground arith in
      let first : 0xf0 + n / 262144 ≡ 0xf0 = omega arith in
      (
        0x90,
        0xbf,
        ap utf8_lead first,
        within 0x90 (0x80 + n / 4096 % 64) 0xbf (omega arith) (omega arith),
      )
  | inr big ↦
      let bound : 0x40000 ≤ n = ground arith in
      elim (Bool-cases (ltb n 0x100000)) [
        | inl middle ↦
            let within_third : n < 0x100000 = ground arith in
            (
              0x80,
              0xbf,
              lead_four (0xf0 + n / 262144) (omega arith) (omega arith),
              continued (n / 4096),
            )
        | inr last ↦
            let from : 0x100000 ≤ n = ground arith in
            let first : 0xf0 + n / 262144 ≡ 0xf4 = omega arith in
            (
              0x80,
              0x8f,
              ap utf8_lead first,
              within 0x80 (0x80 + n / 4096 % 64) 0x8f (omega arith) (omega arith),
            )
      ]
]

two_utf8 :
    (n : ℕ) (rest : Bytes)
    → 0x80 ≤ n
    → n < 0x800
    → is_utf8 ((0xc0 + n / 64) ∷ (0x80 + n % 64) ∷ rest) ≡ is_utf8 rest
two_utf8 n rest low high =
    utf8_from-lead 0x80 0xbf (0xc0 + n / 64) 1 0x80 0xbf ((0x80 + n % 64) ∷ rest)
      (lead_two (0xc0 + n / 64) (omega arith) (omega arith))
    ∙ utf8_next 0 0x80 0xbf (0x80 + n % 64) rest (continued n)

three_utf8 :
    (a b n : ℕ) (rest : Bytes)
    → Starts 2 a b
    → is_utf8 (a ∷ b ∷ (0x80 + n % 64) ∷ rest) ≡ is_utf8 rest
three_utf8 a b n rest (lo, hi, lead, fits) =
    utf8_from-lead 0x80 0xbf a 2 lo hi (b ∷ (0x80 + n % 64) ∷ rest) lead
    ∙ utf8_next 1 lo hi b ((0x80 + n % 64) ∷ rest) fits
    ∙ utf8_next 0 0x80 0xbf (0x80 + n % 64) rest (continued n)

four_utf8 :
    (a b m n : ℕ) (rest : Bytes)
    → Starts 3 a b
    → is_utf8 (a ∷ b ∷ (0x80 + m % 64) ∷ (0x80 + n % 64) ∷ rest) ≡ is_utf8 rest
four_utf8 a b m n rest (lo, hi, lead, fits) =
    utf8_from-lead 0x80 0xbf a 3 lo hi (b ∷ (0x80 + m % 64) ∷ (0x80 + n % 64) ∷ rest) lead
    ∙ utf8_next 2 lo hi b ((0x80 + m % 64) ∷ (0x80 + n % 64) ∷ rest) fits
    ∙ utf8_next 1 0x80 0xbf (0x80 + m % 64) ((0x80 + n % 64) ∷ rest) (continued m)
    ∙ utf8_next 0 0x80 0xbf (0x80 + n % 64) rest (continued n)

pub scalar-range : (n : ℕ) → IsScalar n → (n < 0xd800) ⊎ ((0xe000 ≤ n) × (n < 0x110000))
scalar-range n scalar = ground arith

-- The bytes of a character are UTF-8.
pub encode_char-utf8 :
    (n : ℕ) (rest : Bytes)
    → (n < 0xd800) ⊎ ((0xe000 ≤ n) × (n < 0x110000))
    → is_utf8 (encode_char n ++ rest) ≡ is_utf8 rest
encode_char-utf8 n rest scalar = elim (Bool-cases (ltb n 0x80)) [
  | inl one ↦
      let small : n < 0x80 = ground arith in
      rw (one) (utf8_from-lead 0x80 0xbf n 0 0x80 0xbf rest (ascii-lead n small))
  | inr more ↦ elim (Bool-cases (ltb n 0x800)) [
    | inl two ↦
        let low : 0x80 ≤ n = ground arith in
        let high : n < 0x800 = ground arith in rw (more, two) (two_utf8 n rest low high)
    | inr more' ↦ elim (Bool-cases (ltb n 0x10000)) [
      | inl three ↦
          let low : 0x800 ≤ n = ground arith in
          let high : n < 0x10000 = ground arith in
          let part : (n < 0xd800) ⊎ (0xe000 ≤ n) = ground arith in
          rw (more, more', three)
            (three_utf8 (0xe0 + n / 4096) (0x80 + n / 64 % 64) n rest
              (three-Starts n low high part))
      | inr four ↦
          let low : 0x10000 ≤ n = ground arith in
          let high : n < 0x110000 = ground arith in
          rw (more, more', four)
            (four_utf8 (0xf0 + n / 262144) (0x80 + n / 4096 % 64) (n / 64) n rest
              (four-Starts n low high))
    ]
  ]
]
