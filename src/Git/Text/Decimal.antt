-- ===== src/Git/Text/Decimal.antt =====
-- A number is read back from its decimal text.
use omoplata.Prelude.{
  ◌≡◌, refl, ap, sym, ◌∙◌, inl, inr, ℕ, zero, suc, ◌+◌, ◌-◌, ◌*◌, ◌/◌, ◌%◌, ◌^◌, ◌<◌, true, false,
  some, [], ◌∷◌, ◌++◌, empty, ltb, nat_eq, Bool-cases, arith,
}
use mathlib.Core.List.{append_assoc, append-nil}
use native.Mathlib.Nat.{pow-suc}
use omoplata.Git.Text.Find.{Lacks, Lacks-append, empty-append}
use omoplata.Git.Bytes.{Bytes, between, utf8_from, is_utf8}
use omoplata.Git.Text.{usize_mod, decimal_digits, parse_usize, to_decimal, usize_to_string}

-- A digit is read after the number before it.
decimal_digits-digit :
    (acc d : ℕ) (rest : Bytes)
    → d < 10
    → acc * 10 + d < usize_mod
    → decimal_digits acc ((b'0' + d) ∷ rest) ≡ decimal_digits (acc * 10 + d) rest
unfolding decimal_digits
decimal_digits-digit acc d rest digit small =
    let same : acc * 10 + (b'0' + d - b'0') ≡ acc * 10 + d = omega arith in
    let within : ltb (acc * 10 + d) usize_mod ≡ true = ground arith in
    let is_digit : between b'0' (b'0' + d) b'9' ≡ true = ground arith in rw (is_digit, same, within)

first_digit :
    (n : ℕ) (rest : Bytes)
    → n < 10
    → n < usize_mod
    → decimal_digits 0 ((b'0' + n) ∷ rest) ≡ decimal_digits n rest
first_digit n rest digit small =
    decimal_digits-digit 0 n rest digit (omega arith)
    ∙ ap (λ (m : ℕ). decimal_digits m rest) (omega arith)

decimal_digits-to_decimal :
    (digits n : ℕ) (rest : Bytes)
    → n < 10 ^ suc digits
    → n < usize_mod
    → decimal_digits 0 (to_decimal digits n ++ rest) ≡ decimal_digits n rest
unfolding to_decimal
decimal_digits-to_decimal zero n rest fits small = first_digit n rest (omega arith) small
decimal_digits-to_decimal (suc digits) n rest fits small = elim (Bool-cases (ltb n 10)) [
  | inl one ↦ rw one (first_digit n rest (ground arith) small)
  | inr more ↦
      rw (more, append_assoc (to_decimal digits (n / 10)) ((b'0' + n % 10) ∷ []) rest)
        (decimal_digits-to_decimal digits (n / 10) ((b'0' + n % 10) ∷ rest)
            (omega (arith, pow-suc 10 (suc digits))) (omega arith)
          ∙ decimal_digits-digit (n / 10) (n % 10) rest (omega arith) (omega arith)
          ∙ ap (λ (m : ℕ). decimal_digits m rest) (omega arith))
]

to_decimal-digits :
    (digits n sep : ℕ) → sep < b'0' → n < 10 ^ suc digits → Lacks sep (to_decimal digits n)
unfolding to_decimal
to_decimal-digits zero n sep low fits = (ground arith, tt)
to_decimal-digits (suc digits) n sep low fits = elim (Bool-cases (ltb n 10)) [
  | inl one ↦ rw one (ground arith, tt)
  | inr more ↦ rw more (
      Lacks-append sep (to_decimal digits (n / 10)) ((b'0' + n % 10) ∷ [])
        (to_decimal-digits digits (n / 10) sep low (omega (arith, pow-suc 10 (suc digits))))
        (ground arith, tt))
]

to_decimal-empty : (digits n : ℕ) → empty (to_decimal digits n) ≡ false
unfolding to_decimal
to_decimal-empty zero n = refl
to_decimal-empty (suc digits) n = elim (Bool-cases (ltb n 10)) [
  | inl one ↦ rw one refl
  | inr more ↦ rw more (
      empty-append (to_decimal digits (n / 10)) ((b'0' + n % 10) ∷ [])
        (to_decimal-empty digits (n / 10)))
]

parse_usize-digits :
    (text : Bytes) → empty text ≡ false → Lacks b'+' text → parse_usize text ≡ decimal_digits 0 text
unfolding parse_usize
parse_usize-digits [] some_digit lacks = absurd (cc (some_digit))
parse_usize-digits (c ∷ []) some_digit lacks = refl
parse_usize-digits (c ∷ d ∷ cs) some_digit (other, lacks) = rw other

-- 10^20 is larger than any `usize`.
pub parse_usize-usize_to_string : (n : ℕ) → n < usize_mod → parse_usize (usize_to_string n) ≡ some n
unfolding decimal_digits
parse_usize-usize_to_string n small =
    parse_usize-digits (to_decimal 19 n) (to_decimal-empty 19 n)
      (to_decimal-digits 19 n b'+' (omega arith) (omega arith))
    ∙ ap (decimal_digits 0) (sym (append-nil (to_decimal 19 n)))
    ∙ decimal_digits-to_decimal 19 n [] (omega arith) small

pub usize_to_string-Lacks : (n sep : ℕ) → n < usize_mod → sep < b'0' → Lacks sep (usize_to_string n)
usize_to_string-Lacks n sep small low = to_decimal-digits 19 n sep low (omega arith)

utf8_from-digits :
    (digits n : ℕ) (rest : Bytes)
    → n < 10 ^ suc digits
    → utf8_from 0 0x80 0xbf (to_decimal digits n ++ rest) ≡ utf8_from 0 0x80 0xbf rest
unfolding to_decimal utf8_from
utf8_from-digits zero n rest fits = ground arith
utf8_from-digits (suc digits) n rest fits = elim (Bool-cases (ltb n 10)) [
  | inl one ↦ rw one (ground arith)
  | inr more ↦
      rw (more, append_assoc (to_decimal digits (n / 10)) ((b'0' + n % 10) ∷ []) rest)
        (utf8_from-digits digits (n / 10) ((b'0' + n % 10) ∷ rest)
            (omega (arith, pow-suc 10 (suc digits)))
          ∙ ground arith)
]

pub is_utf8-usize_to_string : (n : ℕ) → n < usize_mod → is_utf8 (usize_to_string n) ≡ true
unfolding utf8_from
is_utf8-usize_to_string n small =
    ap (utf8_from 0 0x80 0xbf) (sym (append-nil (to_decimal 19 n)))
    ∙ utf8_from-digits 19 n [] (omega arith)
