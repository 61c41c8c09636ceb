-- ===== src/Algebra/Rebase/Resolved.antt =====
-- Resolving the regions of a document.
use omoplata.Prelude.{
  ◌≡◌, refl, ap, ◌∙◌, inl, inr, ℕ, zero, suc, ◌+◌, ◌≤◌, String, true, false, Option, none, some,
  List, [], ◌∷◌, ◌++◌, All, length, Bool-cases, Option-cases, arith, if◌then◌else◌,
}
use omoplata.Algebra.Doc.{Doc}
use omoplata.Algebra.Rebase.{
  region_of, is_conflict_start, is_conflict_end, regions_from, conflict_marker_regions, collapsed,
  later, resolve_loop, resolve_all,
}

-- What a line opens: a region behind it, or none.
opened : String → List String → Option (List String)
opened l ls = if is_conflict_start l then region_of ls else none

unclosed-tail : (l : String) (ls : List String) → region_of (l ∷ ls) ≡ none → region_of ls ≡ none
unfolding region_of
unclosed-tail l ls h = elim (Bool-cases (is_conflict_end l)) [
  | inl ends ↦ absurd (ground arith)
  | inr other ↦ elim (Option-cases (region_of ls)) [
    | inl missing ↦ missing
    | inr (region, found) ↦ absurd (ground arith)
  ]
]

opened-unclosed : (l : String) (ls : List String) → region_of ls ≡ none → opened l ls ≡ none
unfolding opened
opened-unclosed l ls h = ground arith

-- Lines without an end marker have no region.
regions_from-unclosed : (i : ℕ) (ls : List String) → region_of ls ≡ none → regions_from 0 i ls ≡ []
unfolding regions_from opened
regions_from-unclosed i [] h = refl
regions_from-unclosed i (l ∷ ls) h =
    let behind = unclosed-tail l ls h in
    rw (regions_from, opened-unclosed l ls behind) (regions_from-unclosed (i + 1) ls behind)

resolve_loop-unclosed :
    (ls : List String) (resolutions : List (List String))
    → region_of ls ≡ none
    → resolve_loop 0 ls resolutions ≡ ls
unfolding resolve_loop opened
resolve_loop-unclosed [] resolutions h = refl
resolve_loop-unclosed (l ∷ ls) resolutions h =
    let behind = unclosed-tail l ls h in
    rw (resolve_loop, opened-unclosed l ls behind)
      (ap (λ (k : List String). l ∷ k) (resolve_loop-unclosed ls resolutions behind))

-- No line opens a region.
abbrev pub IsPlain : List String → Type 0
IsPlain lines = All (λ (l : String). is_conflict_start l ≡ false) lines

regions_from-plain :
    (i : ℕ) (xs ys : List String)
    → IsPlain xs
    → ((j : ℕ) → regions_from 0 j ys ≡ [])
    → regions_from 0 i (xs ++ ys) ≡ []
unfolding regions_from
regions_from-plain i [] ys plain none_behind = none_behind i
regions_from-plain i (x ∷ xs) ys (one, plain) none_behind =
    rw (regions_from, one) (regions_from-plain (i + 1) xs ys plain none_behind)

regions_from-closed :
    (i : ℕ) (l : String) (ls : List String)
    → opened l ls ≡ none
    → regions_from 0 i (l ∷ ls) ≡ regions_from 0 (i + 1) ls
unfolding regions_from opened
regions_from-closed i l ls closed = rw (regions_from, closed) refl

length-regions_from :
    (i : ℕ) (l : String) (ls region : List String)
    → opened l ls ≡ some region
    → length (regions_from 0 i (l ∷ ls)) ≡ suc (length (regions_from (length region) (i + 1) ls))
unfolding regions_from opened
length-regions_from i l ls region found = rw (regions_from, found) refl

resolve_loop-closed :
    (l : String) (ls : List String) (resolutions : List (List String))
    → opened l ls ≡ none
    → resolve_loop 0 (l ∷ ls) resolutions ≡ l ∷ resolve_loop 0 ls resolutions
unfolding resolve_loop opened
resolve_loop-closed l ls resolutions closed = rw (resolve_loop, closed) refl

resolve_loop-opened :
    (l : String) (ls region : List String) (resolutions : List (List String))
    → opened l ls ≡ some region
    → resolve_loop 0 (l ∷ ls) resolutions
      ≡ collapsed l region resolutions ++ resolve_loop (length region) ls (later resolutions)
unfolding resolve_loop opened
resolve_loop-opened l ls region resolutions found = rw (resolve_loop, found) refl

-- A start marker that no end marker follows stays, and opens no region.
regions_from-lone :
    (j : ℕ) (l : String) (ls : List String) (resolutions : List (List String))
    → opened l ls ≡ none
    → is_conflict_start l ≡ true
    → regions_from 0 j (l ∷ resolve_loop 0 ls resolutions) ≡ []
unfolding opened
regions_from-lone j l ls resolutions closed opens =
    let unclosed : region_of ls ≡ none = rw opens at closed in
    rw (resolve_loop-unclosed ls resolutions unclosed)
      (regions_from-closed j l ls closed ∙ regions_from-unclosed (j + 1) ls unclosed)

length-later :
    (resolutions : List (List String)) → length resolutions ≤ suc (length (later resolutions))
length-later [] = omega arith
length-later (chosen ∷ resolutions) = omega arith

All-later :
    (resolutions : List (List String)) → All IsPlain resolutions → All IsPlain (later resolutions)
All-later [] plain = tt
All-later (chosen ∷ resolutions) (one, plain) = plain

-- The lines chosen for a region stand before what is behind it.
chosen_too :
    (j : ℕ) (l : String) (region behind : List String) (resolutions : List (List String))
    → 1 ≤ length resolutions
    → All IsPlain resolutions
    → ((k : ℕ) → regions_from 0 k behind ≡ [])
    → regions_from 0 j (collapsed l region resolutions ++ behind) ≡ []
chosen_too j l region behind [] some_left plain none_behind = absurd (omega arith)
chosen_too j l region behind (chosen ∷ resolutions) some_left (one, plain) none_behind =
    regions_from-plain j chosen behind one none_behind

regions_from-resolve_loop :
    (skip i j : ℕ) (ls : List String) (resolutions : List (List String))
    → length (regions_from skip i ls) ≤ length resolutions
    → All IsPlain resolutions
    → regions_from 0 j (resolve_loop skip ls resolutions) ≡ []
unfolding regions_from resolve_loop
regions_from-resolve_loop skip i j [] resolutions enough plain = refl
regions_from-resolve_loop (suc skip) i j (l ∷ ls) resolutions enough plain =
    regions_from-resolve_loop skip (i + 1) j ls resolutions enough plain
regions_from-resolve_loop zero i j (l ∷ ls) resolutions enough plain =
    elim (Option-cases (opened l ls)) [
      | inl closed ↦
          ap (regions_from 0 j) (resolve_loop-closed l ls resolutions closed)
          ∙ elim (Bool-cases (is_conflict_start l)) [
            | inl opens ↦ regions_from-lone j l ls resolutions closed opens
            | inr other ↦
                regions_from-plain j (l ∷ []) (resolve_loop 0 ls resolutions) (other, tt)
                  (λ k.
                    regions_from-resolve_loop zero (i + 1) k ls resolutions
                      (rw (regions_from-closed i l ls closed) at enough) plain)
          ]
      | inr (region, found) ↦
          ap (regions_from 0 j) (resolve_loop-opened l ls region resolutions found)
          ∙ chosen_too j l region (resolve_loop (length region) ls (later resolutions)) resolutions
              (omega (arith, length-regions_from i l ls region found)) plain
              (λ k.
                regions_from-resolve_loop (length region) (i + 1) k ls (later resolutions)
                  (omega (arith, length-regions_from i l ls region found, length-later resolutions))
                  (All-later resolutions plain))
    ]

-- Where each region has a resolution, and no line of a resolution opens a region, resolving leaves
-- no region.
pub conflict_marker_regions-resolve_all :
    (rendered : Doc) (resolutions : List (List String))
    → length (conflict_marker_regions rendered) ≤ length resolutions
    → All IsPlain resolutions
    → conflict_marker_regions (resolve_all rendered resolutions) ≡ []
unfolding resolve_all
conflict_marker_regions-resolve_all rendered resolutions enough plain =
    regions_from-resolve_loop 0 0 0 rendered.lines resolutions enough plain
