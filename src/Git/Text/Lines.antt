-- ===== src/Git/Text/Lines.antt =====
-- A text that is put together is split into its lines again, and is UTF-8 where its parts are.
use omoplata.Prelude.{
  ◌≡◌, refl, sym, ◌∙◌, inl, inr, ℕ, zero, suc, ◌<◌, true, false, none, some, List, [], ◌∷◌, ◌++◌,
  All, ◌==◌, nat_eq, Bool-cases, Option-cases, arith,
}
use omoplata.Git.Bytes.{Bytes, between, utf8_lead, utf8_from, is_utf8}
use omoplata.Git.Text.{split_lines}
use omoplata.Git.Text.Find.{Lacks}

pub split_lines-append :
    (line rest : Bytes)
    → Lacks b'\n' line
    → split_lines (line ++ b'\n' ∷ rest) ≡ line ∷ split_lines rest
unfolding split_lines
split_lines-append [] rest lacks = refl
split_lines-append (b ∷ line) rest (other, lacks) = rw (other, split_lines-append line rest lacks)

-- Splitting gives a line at least.
pub split_lines-line :
    (text : Bytes) → (line : Bytes) × (lines : List Bytes) × (split_lines text ≡ line ∷ lines)
unfolding split_lines
split_lines-line [] = ([], [], refl)
split_lines-line (b ∷ text) = elim (Bool-cases (b == b'\n')) [
  | inl end ↦ ([], split_lines text, rw (end) refl)
  | inr other ↦
      let (line, lines, found) = split_lines-line text in (b ∷ line, lines, rw (other, found) refl)
]

pub utf8_start : (lo hi : ℕ) (text : Bytes) → utf8_from 0 lo hi text ≡ is_utf8 text
unfolding utf8_from
utf8_start lo hi [] = refl
utf8_start lo hi (b ∷ text) = refl

pub utf8_from-lead :
    (lo hi b n lo' hi' : ℕ) (text : Bytes)
    → utf8_lead b ≡ some (n, lo', hi')
    → utf8_from 0 lo hi (b ∷ text) ≡ utf8_from n lo' hi' text
unfolding utf8_from
utf8_from-lead lo hi b n lo' hi' text lead = rw (utf8_from, lead) refl

utf8_from-bad :
    (lo hi b : ℕ) (text : Bytes) → utf8_lead b ≡ none → utf8_from 0 lo hi (b ∷ text) ≡ false
unfolding utf8_from
utf8_from-bad lo hi b text bad = rw (utf8_from, bad) refl

pub ascii-lead : (b : ℕ) → b < 0x80 → utf8_lead b ≡ some (0, 0x80, 0xbf)
ascii-lead b small = ground arith

utf8_from-append :
    (n lo hi : ℕ) (xs ys : Bytes)
    → utf8_from n lo hi xs ≡ true
    → utf8_from n lo hi (xs ++ ys) ≡ is_utf8 ys
unfolding utf8_from
utf8_from-append zero lo hi [] ys h = utf8_start lo hi ys
utf8_from-append (suc n) lo hi [] ys h = absurd (cc (h))
utf8_from-append zero lo hi (b ∷ xs) ys h = elim (Option-cases (utf8_lead b)) [
  | inl bad ↦ absurd (cc (h, utf8_from-bad lo hi b xs bad))
  | inr ((n, lo', hi'), lead) ↦
      utf8_from-lead lo hi b n lo' hi' (xs ++ ys) lead
      ∙ utf8_from-append n lo' hi' xs ys (sym (utf8_from-lead lo hi b n lo' hi' xs lead) ∙ h)
]
utf8_from-append (suc n) lo hi (b ∷ xs) ys h = elim (Bool-cases (between lo b hi)) [
  | inl within ↦ rw (within) (utf8_from-append n 0x80 0xbf xs ys (ground arith))
  | inr out ↦ absurd (ground arith)
]

pub is_utf8-append : (xs ys : Bytes) → is_utf8 xs ≡ true → is_utf8 (xs ++ ys) ≡ is_utf8 ys
is_utf8-append xs ys h = utf8_from-append 0 0x80 0xbf xs ys h

pub is_utf8-ascii : (text : Bytes) → All (λ (b : ℕ). b < 0x80) text → is_utf8 text ≡ true
unfolding utf8_from
is_utf8-ascii [] all = refl
is_utf8-ascii (b ∷ text) (small, all) =
    utf8_from-lead 0x80 0xbf b 0 0x80 0xbf text (ascii-lead b small) ∙ is_utf8-ascii text all
