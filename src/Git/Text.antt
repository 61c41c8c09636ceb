-- ===== src/Git/Text.antt =====
-- What the git formats use of Rust's `str` and `slice`, on bytes: the search of a byte, the
-- splitting of lines, decimal numbers, `trim`, and the reading of bytes that may not be UTF-8.
pub mod Find
pub mod Lines
pub mod Decimal
use omoplata.Prelude.{
  ℕ, zero, suc, ◌+◌, ◌-◌, ◌*◌, ◌/◌, ◌%◌, ◌^◌, Bool, true, false, ◌&&◌, ◌||◌, Option, none, some,
  List, [], ◌∷◌, ◌++◌, leb, ltb, ◌==◌, nat_eq, if◌then◌else◌,
}
use omoplata.Git.Bytes.{Bytes, between, utf8_lead}

abbrev pub cons_before : ℕ → Option (Bytes × Bytes) → Option (Bytes × Bytes)
cons_before b none = none
cons_before b (some (before, after)) = some (b ∷ before, after)

-- What stands before the first such byte, and what stands behind it.
unfoldable pub find_byte : ℕ → Bytes → Option (Bytes × Bytes)
find_byte sep [] = none
find_byte sep (b ∷ bs) =
    let found = find_byte sep bs in if b == sep then some ([], bs) else cons_before b found

abbrev pub cons_line : ℕ → List Bytes → List Bytes
cons_line b [] = (b ∷ []) ∷ []
cons_line b (line ∷ lines) = (b ∷ line) ∷ lines

-- `text.split('\n')`
unfoldable pub split_lines : Bytes → List Bytes
split_lines [] = [] ∷ []
split_lines (b ∷ bs) =
    let lines = split_lines bs in if b == b'\n' then [] ∷ lines else cons_line b lines

abbrev pub usize_mod : ℕ
usize_mod = 2 ^ 64

unfoldable pub decimal_digits : ℕ → Bytes → Option ℕ
decimal_digits acc [] = some acc
decimal_digits acc (c ∷ cs) =
    let acc' = acc * 10 + (c - b'0') in
    let more = decimal_digits acc' cs in
    if between b'0' c b'9' && ltb acc' usize_mod then more else none

-- `text.parse::<usize>()`: one sign `+` may stand before the digits, of which there has to be one.
unfoldable pub parse_usize : Bytes → Option ℕ
unfolding decimal_digits
parse_usize [] = none
parse_usize (c ∷ []) = decimal_digits 0 (c ∷ [])
parse_usize (c ∷ d ∷ cs) =
    if c == b'+' then decimal_digits 0 (d ∷ cs) else decimal_digits 0 (c ∷ d ∷ cs)

-- `n.to_string()` of a number with at most `digits` digits and one more.
unfoldable pub to_decimal : ℕ → ℕ → Bytes
to_decimal zero n = (b'0' + n) ∷ []
to_decimal (suc digits) n =
    let front = to_decimal digits (n / 10) in
    if ltb n 10 then (b'0' + n) ∷ [] else front ++ (b'0' + n % 10) ∷ []

-- A `usize` has at most 20 digits.
abbrev pub usize_to_string : ℕ → Bytes
usize_to_string n = to_decimal 19 n

-- What is behind a white space character at the head.
unfoldable pub strip_space : Bytes → Option Bytes
strip_space [] = none
strip_space (a ∷ []) = if between 9 a 13 || a == b' ' then some [] else none
strip_space (a ∷ b ∷ []) =
    if between 9 a 13 || a == b' '
    then some (b ∷ [])
    else if a == 0xc2 && (b == 0x85 || b == 0xa0)
    then some []
    else none
strip_space (a ∷ b ∷ c ∷ rest) =
    if between 9 a 13 || a == b' '
    then some (b ∷ c ∷ rest)
    else if a == 0xc2 && (b == 0x85 || b == 0xa0)
    then some (c ∷ rest)
    else if (a == 0xe1 && (b == 0x9a && c == 0x80))
        || ((a == 0xe2
              && (b == 0x80 && (between 0x80 c 0x8a || (c == 0xa8 || (c == 0xa9 || c == 0xaf)))))
            || ((a == 0xe2 && (b == 0x81 && c == 0x9f)) || (a == 0xe3 && (b == 0x80 && c == 0x80))))
    then some rest
    else none

-- `trim_start`: each round takes a byte at least.
unfoldable pub trim_start : ℕ → Bytes → Bytes
unfolding strip_space
trim_start zero bs = bs
trim_start (suc fuel) bs = elim (strip_space bs) [ none ↦ bs | some rest ↦ trim_start fuel rest ]

-- The end of a text that is white space alone: a text ends where `trim_start` leaves nothing.
unfoldable pub trim_end : ℕ → Bytes → Bytes
unfolding trim_start
trim_end fuel [] = []
trim_end fuel (b ∷ bs) =
    let rest = trim_end fuel bs in elim (trim_start fuel (b ∷ bs)) [ [] ↦ [] | _ ∷ _ ↦ b ∷ rest ]

abbrev pub replacement : Bytes
replacement = 0xef ∷ 0xbf ∷ 0xbd ∷ []

-- A byte that no character is waiting for: whole by itself, the first of some more, or invalid.
-- `String::from_utf8_lossy` puts one replacement for each such part that does not become one.
unfoldable pub lossy_from : ℕ → ℕ → ℕ → Bytes → Bytes → Bytes
lossy_from zero lo hi waiting [] = []
lossy_from (suc n) lo hi waiting [] = replacement
lossy_from zero lo hi waiting (b ∷ bs) = elim (utf8_lead b) [
  | none ↦ replacement ++ lossy_from 0 lo hi [] bs
  | some (zero, lo', hi') ↦ b ∷ lossy_from 0 lo' hi' [] bs
  | some (suc m, lo', hi') ↦ lossy_from (suc m) lo' hi' (b ∷ []) bs
]
lossy_from (suc n) lo hi waiting (b ∷ bs) =
    let whole = waiting ++ b ∷ lossy_from 0 0x80 0xbf [] bs in
    let more = lossy_from n 0x80 0xbf (waiting ++ b ∷ []) bs in
    let broken = replacement ++ replacement ++ lossy_from 0 0x80 0xbf [] bs in
    let restart : ℕ → ℕ → ℕ → Bytes =
      λ m lo' hi'. replacement ++ lossy_from m lo' hi' (b ∷ []) bs in
    let alone = replacement ++ b ∷ lossy_from 0 0x80 0xbf [] bs in
    if between lo b hi then elim n [ zero ↦ whole | suc m ↦ more ] else elim (utf8_lead b) [
      | none ↦ broken
      | some (zero, lo', hi') ↦ alone
      | some (suc m, lo', hi') ↦ restart (suc m) lo' hi'
    ]

abbrev pub utf8_lossy : Bytes → Bytes
utf8_lossy bytes = lossy_from 0 0x80 0xbf [] bytes
