-- ===== src/Algebra/Doc/Text.antt =====
-- A text is split into its lines and put together again.
use Prim.Native.Char.{Char, code}
use Prim.Native.String.append
use text.Mathlib.TextEquality.{Char-path}
use omoplata.Prelude.{
  ◌≡◌, refl, ap, sym, ◌∙◌, inl, inr, String, List, [], ◌∷◌, ◌==◌, nat_eq, eq→eq, Bool-cases,
}
use omoplata.Algebra.Doc.{cons_first, split_newline, from_str, join_lines, to_string}

some_line :
    (s : String) → (line : String) × (lines : List String) × (split_newline s ≡ line ∷ lines)
unfolding split_newline
some_line String.[] = (String.[], [], refl)
some_line (String.◌∷◌ c s) = elim (Bool-cases (code c == b'\n')) [
  | inl end ↦ (String.[], split_newline s, rw (end) refl)
  | inr other ↦
      let (line, lines, found) = some_line s in (String.◌∷◌ c line, lines, rw (other, found) refl)
]

join_lines-cons_first :
    (c : Char) (line : String) (lines : List String)
    → join_lines (cons_first c (line ∷ lines)) ≡ String.◌∷◌ c (join_lines (line ∷ lines))
unfolding join_lines
join_lines-cons_first c line [] = refl
join_lines-cons_first c line (next ∷ lines) =
    append.cons c line (String.◌∷◌ "\n" (join_lines (next ∷ lines)))

join_lines-end :
    (line : String) (lines : List String)
    → join_lines (String.[] ∷ line ∷ lines) ≡ String.◌∷◌ "\n" (join_lines (line ∷ lines))
unfolding join_lines
join_lines-end line lines = append.nil (String.◌∷◌ "\n" (join_lines (line ∷ lines)))

join_lines-split_newline : (s : String) → join_lines (split_newline s) ≡ s
unfolding join_lines split_newline
join_lines-split_newline String.[] = refl
join_lines-split_newline (String.◌∷◌ c s) =
    let (line, lines, found) = some_line s in
    let rest : join_lines (line ∷ lines) ≡ s =
      ap join_lines (sym found) ∙ join_lines-split_newline s in
    elim (Bool-cases (code c == b'\n')) [
      | inl end ↦
          let newline : c ≡ "\n" = Char-path c "\n" (eq→eq (code c) b'\n' end) in
          rw (end, found)
            (join_lines-end line lines
              ∙ ap (λ (t : String). String.◌∷◌ "\n" t) rest
              ∙ ap (λ (x : Char). String.◌∷◌ x s) (sym newline))
      | inr other ↦
          rw (other, found)
            (join_lines-cons_first c line lines ∙ ap (λ (t : String). String.◌∷◌ c t) rest)
    ]

-- A text that was split into lines is put together again.
pub to_string-from_str : (s : String) → to_string (from_str s) ≡ s
unfolding to_string from_str
to_string-from_str s = join_lines-split_newline s
