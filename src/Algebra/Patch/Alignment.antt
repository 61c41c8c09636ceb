-- ===== src/Algebra/Patch/Alignment.antt =====
-- The matches of `lcs_matches` align the two documents.
use omoplata.Prelude.{
  ℕ, zero, suc, ◌+◌, ◌≤◌, ◌≡◌, refl, sym, ap, ◌∙◌, String, inl, inr, List, [], ◌∷◌, some, length,
  get_elem?, drop, arith, Bool-cases, ◌==◌, string_eq, eq→eq, leb, drop-drop, length-drop,
}
use omoplata.Algebra.Patch.{cell, lcs_walk, lcs_matches}

-- The pairs rise strictly from (bi, ti) on, stay within both documents, and each pairs two equal
-- lines.
abbrev pub IsAlignment : List String → List String → List (ℕ × ℕ) → ℕ → ℕ → Type 0
IsAlignment b t [] bi ti = (bi ≤ length b) × (ti ≤ length t)
IsAlignment b t ((mb, mt) ∷ ms) bi ti =
    (line : String) × (bi ≤ mb)
    × (ti ≤ mt)
    × (get_elem? b mb ≡ some line)
    × (get_elem? t mt ≡ some line)
    × IsAlignment b t ms (mb + 1) (mt + 1)

module _ (b t : List String) where
  IsAlignment-lower :
      (ms : List (ℕ × ℕ)) (bi ti bi' ti' : ℕ)
      → bi' ≤ bi
      → ti' ≤ ti
      → IsAlignment b t ms bi ti
      → IsAlignment b t ms bi' ti'
  IsAlignment-lower [] bi ti bi' ti' h k (p, q) = (omega arith, omega arith)
  IsAlignment-lower ((mb, mt) ∷ ms) bi ti bi' ti' h k (line, p, q, in_b, in_t, rest) =
      (line, omega arith, omega arith, in_b, in_t, rest)

pub get_elem?-drop :
    (i : ℕ) (xs ys : List String) {x : String} → drop i xs ≡ x ∷ ys → get_elem? xs i ≡ some x
get_elem?-drop zero [] ys e = cc
get_elem?-drop (suc i) [] ys e = cc
get_elem?-drop zero (x ∷ xs) ys e = cc
get_elem?-drop (suc i) (x ∷ xs) ys e = get_elem?-drop i xs ys e

-- A cursor moves on by one line.
drop-next : (i : ℕ) (xs ys : List String) {x : String} → drop i xs ≡ x ∷ ys → drop (i + 1) xs ≡ ys
drop-next i xs ys e = sym (drop-drop i 1 (i + 1) xs refl) ∙ ap (drop 1) e

room : (i : ℕ) (xs ys : List String) {x : String} → drop i xs ≡ x ∷ ys → i + 1 ≤ length xs
room i xs ys e = omega (arith, ap length e, length-drop i xs)

module _ (b t : List String) (dp : List (List ℕ)) where
  lcs_walk-IsAlignment :
      (b' t' : List String) (i j : ℕ)
      → drop i b ≡ b'
      → drop j t ≡ t'
      → i ≤ length b
      → j ≤ length t
      → IsAlignment b t (lcs_walk dp b' t' i j) i j
  unfolding lcs_walk
  lcs_walk-IsAlignment [] t' i j p q h k = (h, k)
  lcs_walk-IsAlignment (x ∷ b') [] i j p q h k = (h, k)
  lcs_walk-IsAlignment (x ∷ b') (y ∷ t') i j p q h k =
      let next_b = drop-next i b b' p in
      let next_t = drop-next j t t' q in
      let in_b = room i b b' p in
      let in_t = room j t t' q in
      elim (Bool-cases (x == y)) [
        | inl same ↦ rw same (
          x,
          omega arith,
          omega arith,
          get_elem?-drop i b b' p,
          rw (eq→eq x y same) (get_elem?-drop j t t' q),
          lcs_walk-IsAlignment b' t' (i + 1) (j + 1) next_b next_t in_b in_t,
        )
        | inr other ↦ elim (Bool-cases (leb (cell dp i (j + 1)) (cell dp (i + 1) j))) [
          | inl down ↦
              rw (other, down)
                (IsAlignment-lower b t _ (i + 1) j i j (omega arith) (omega arith)
                  (lcs_walk-IsAlignment b' (y ∷ t') (i + 1) j next_b q in_b k))
          | inr right ↦
              rw (other, right)
                (IsAlignment-lower b t _ i (j + 1) i j (omega arith) (omega arith)
                  (lcs_walk-IsAlignment (x ∷ b') t' i (j + 1) p next_t h in_t))
        ]
      ]

-- The pairs of `lcs_matches` rise strictly in both components, stay within both documents, and
-- each pairs two equal lines.
pub lcs_matches-IsAlignment : (b t : List String) → IsAlignment b t (lcs_matches b t) 0 0
unfolding lcs_matches
lcs_matches-IsAlignment b t =
    lcs_walk-IsAlignment b t _ b t 0 0 refl refl (omega arith) (omega arith)
