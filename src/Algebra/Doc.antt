-- ===== src/Algebra/Doc.antt =====
-- crates/omoplata-algebra/src/doc.rs: a document is its ordered lines.
pub mod Text
use Prim.Native.Char.{Char, code}
use Prim.Native.String
use omoplata.Prelude.{
  ◌≡◌, ◌↔◌, ap, PartialEq, ◌==◌, true, list_eq, string_eq, ℕ, String, Bool, List, [], ◌∷◌, nat_eq,
  if◌then◌else◌, empty, length,
}

pub record Doc : Type 0 where
  pub lines : List String

abbrev pub from_lines : List String → Doc
from_lines lines = record { lines = lines }

abbrev pub cons_first : Char → List String → List String
cons_first c [] = String.◌∷◌ c String.[] ∷ []
cons_first c (line ∷ lines) = String.◌∷◌ c line ∷ lines

-- `s.split('\n')`
unfoldable pub split_newline : String → List String
split_newline String.[] = String.[] ∷ []
split_newline (String.◌∷◌ c s) =
    let lines = split_newline s in if code c == b'\n' then String.[] ∷ lines else cons_first c lines

unfoldable pub from_str : String → Doc
unfolding split_newline
from_str s = from_lines (split_newline s)

-- `lines.join("\n")`
unfoldable pub join_lines : List String → String
join_lines [] = String.[]
join_lines (line ∷ []) = line
join_lines (line ∷ next ∷ lines) = String.◌++◌ line (String.◌∷◌ "\n" (join_lines (next ∷ lines)))

unfoldable pub to_string : Doc → String
unfolding join_lines
to_string d = join_lines d.lines

unfoldable pub len : Doc → ℕ
len d = length d.lines

unfoldable pub is_empty : Doc → Bool
is_empty d = empty d.lines

abbrev pub doc_beq : Doc → Doc → Bool
doc_beq d e = d.lines == e.lines

pub doc_beq_iff : (d e : Doc) → (doc_beq d e ≡ true) ↔ (d ≡ e)
doc_beq_iff d e = (
  λ h. ap from_lines (((list_eq {A = String}).eq_iff d.lines e.lines).0 h),
  λ h. ((list_eq {A = String}).eq_iff d.lines e.lines).1 (ap (λ (x : Doc). x.lines) h),
)

-- `#[derive(PartialEq)]`
instance abbrev pub doc_eq : PartialEq Doc
doc_eq = record { eq = doc_beq; eq_iff = doc_beq_iff }
