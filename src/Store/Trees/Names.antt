-- ===== src/Store/Trees/Names.antt =====
-- The names that the entries of a tree may have.
use omoplata.Prelude.{
  ◌≡◌, ◌≢◌, ◌⊎◌, refl, ap, ◌∙◌, inl, inr, ℕ, Bool, true, false, [], ◌∷◌, empty, contains,
  Bool-cases, ◌==◌, ◌||◌, nat_eq, list_eq, eq_self, eq-false_of_ne, ok, err, arith,
}
use omoplata.Git.Bytes.{Bytes}
use omoplata.Git.Text.Find.{Lacks}
use omoplata.Store.Error.{invalid_name}
use omoplata.Store.Trees.{is_refused, validate_name}

-- A single path component that does not break the line it stands on.
abbrev pub IsName : Bytes → Type 0
IsName name =
    (empty name ≡ false)
    × ((name ≢ b'.' ∷ []) × (name ≢ b'.' ∷ b'.' ∷ []))
    × (Lacks b'/' name × Lacks 0 name × Lacks b'\n' name)

contains-Lacks : (sep : ℕ) (text : Bytes) → contains text sep ≡ false → Lacks sep text
contains-Lacks sep [] h = tt
contains-Lacks sep (b ∷ text) h = elim (Bool-cases (b == sep)) [
  | inl same ↦ absurd (ground arith)
  | inr other ↦ (other, contains-Lacks sep text (ground arith))
]

Lacks-contains : (sep : ℕ) (text : Bytes) → Lacks sep text → contains text sep ≡ false
Lacks-contains sep [] lacks = refl
Lacks-contains sep (b ∷ text) (other, lacks) = rw (other) (Lacks-contains sep text lacks)

all_false :
    (a b c d e f : Bool)
    → (a || (b || (c || (d || (e || f))))) ≡ false
    → ((a ≡ false) × (b ≡ false) × (c ≡ false)) × ((d ≡ false) × (e ≡ false) × (f ≡ false))
all_false a b c d e f h =
    ((ground arith, ground arith, ground arith), (ground arith, ground arith, ground arith))

ne_of_eq-false : (a b : Bytes) → (a == b) ≡ false → a ≢ b
ne_of_eq-false a b other same =
    let alike : (a == b) ≡ true = ap (λ (n : Bytes). n == b) same ∙ eq_self b in cc (other, alike)

accepted-IsName : (name : Bytes) → is_refused name ≡ false → IsName name
accepted-IsName name h =
    let ((some_byte, not_dot, not_dots), (slash, nul, line)) =
      all_false (empty name) (name == b'.' ∷ []) (name == b'.' ∷ b'.' ∷ []) (contains name b'/')
        (contains name 0) (contains name b'\n') h in
    (
      some_byte,
      (ne_of_eq-false name _ not_dot, ne_of_eq-false name _ not_dots),
      (contains-Lacks b'/' name slash, contains-Lacks 0 name nul, contains-Lacks b'\n' name line),
    )

accepted_name : (name : Bytes) → IsName name → is_refused name ≡ false
accepted_name name (some_byte, (not_dot, not_dots), (slash, nul, line)) = rw (
  some_byte,
  eq-false_of_ne name (b'.' ∷ []) not_dot,
  eq-false_of_ne name (b'.' ∷ b'.' ∷ []) not_dots,
  Lacks-contains b'/' name slash,
  Lacks-contains 0 name nul,
  Lacks-contains b'\n' name line,
)

pub IsName-validate_name : (name : Bytes) → IsName name → validate_name name ≡ ok tt
unfolding validate_name
IsName-validate_name name good = rw (accepted_name name good) refl

pub validate_name-cases :
    (name : Bytes)
    → (IsName name × (validate_name name ≡ ok tt))
      ⊎ (¬ IsName name × (validate_name name ≡ err (invalid_name name)))
unfolding validate_name
validate_name-cases name = elim (Bool-cases (is_refused name)) [
  | inl refused ↦ inr (λ good. cc (refused, accepted_name name good), rw (refused) refl)
  | inr accepted ↦ inl (accepted-IsName name accepted, rw (accepted) refl)
]
