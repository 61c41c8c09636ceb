-- ===== src/Git/Text/Find.antt =====
-- The search of a byte finds the first one.
use omoplata.Prelude.{
  ◌≡◌, refl, inl, inr, ℕ, false, some, [], ◌∷◌, ◌++◌, All, empty, ◌==◌, nat_eq, eq→eq, eq_self,
  Option-cases, Bool-cases, arith,
}
use omoplata.Git.Bytes.{Bytes}
use omoplata.Git.Text.{find_byte}

-- No byte of the text is the separator.
abbrev pub Lacks : ℕ → Bytes → Type 0
Lacks sep bytes = All (λ (b : ℕ). (b == sep) ≡ false) bytes

pub find_byte-append :
    (sep : ℕ) (before after : Bytes)
    → Lacks sep before
    → find_byte sep (before ++ sep ∷ after) ≡ some (before, after)
unfolding find_byte
find_byte-append sep [] after lacks = rw (eq_self sep)
find_byte-append sep (b ∷ before) after (other, lacks) =
    rw (other, find_byte-append sep before after lacks)

pub find_byte-parts :
    (sep : ℕ) (bytes before after : Bytes)
    → find_byte sep bytes ≡ some (before, after)
    → bytes ≡ before ++ sep ∷ after
unfolding find_byte
find_byte-parts sep [] before after h = absurd (cc (h))
find_byte-parts sep (b ∷ bytes) before after h = elim (Bool-cases (b == sep)) [
  | inl same ↦ ground (arith, eq→eq b sep)
  | inr other ↦ elim (Option-cases (find_byte sep bytes)) [
    | inl missing ↦ ground arith
    | inr ((x, y), found) ↦ let parts = find_byte-parts sep bytes x y found in ground arith
  ]
]

pub Lacks-append : (sep : ℕ) (xs ys : Bytes) → Lacks sep xs → Lacks sep ys → Lacks sep (xs ++ ys)
Lacks-append sep [] ys front back = back
Lacks-append sep (x ∷ xs) ys (other, front) back = (other, Lacks-append sep xs ys front back)

pub empty-append : (xs ys : Bytes) → empty xs ≡ false → empty (xs ++ ys) ≡ false
empty-append [] ys e = absurd (cc (e))
empty-append (x ∷ xs) ys e = refl
