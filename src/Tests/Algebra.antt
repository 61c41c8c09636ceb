-- ===== src/Tests/Algebra.antt =====
-- The patch algebra on a document of four lines and edits of it.
use omoplata.Prelude.{◌≡◌, refl, [], ◌∷◌, some, ok, true, map}
use omoplata.Prelude.Int.{◌+ℤ◌, ◌-ℤ◌}
use omoplata.Algebra.Doc.{Doc, from_lines}
use omoplata.Algebra.Patch.{Patch, delta, delta_sum, apply, diff}
use omoplata.Algebra.Patch.Diff.{apply-diff}
use omoplata.Algebra.Commute.{independent, hunks_conflict, commute, rebase}
use omoplata.Algebra.Commute.Sound.{commute_sound}
use omoplata.Algebra.Merge.{Output, merge_run, merge3, is_clean}
use omoplata.Algebra.Merge.Symmetry.{flip, merge3_comm}
use omoplata.Algebra.Merge.Total.{merge_run-ends}

abbrev base : Doc
base = from_lines ("a" ∷ "b" ∷ "c" ∷ "d" ∷ [])

abbrev left : Doc
left = from_lines ("A" ∷ "b" ∷ "c" ∷ "d" ∷ [])

abbrev right : Doc
right = from_lines ("a" ∷ "b" ∷ "c" ∷ "D" ∷ "e" ∷ [])

abbrev other : Doc
other = from_lines ("X" ∷ "b" ∷ "c" ∷ "d" ∷ [])

diff_runs :
    diff base left
    ≡ record { hunks = record { base_start = 0; remove = "a" ∷ []; insert = "A" ∷ [] } ∷ [] }
unfolding diff
diff_runs = refl

merges_clean : (merge3 base left right).merged ≡ from_lines ("A" ∷ "b" ∷ "c" ∷ "D" ∷ "e" ∷ [])
unfolding merge3
merges_clean = refl

merges_conflict :
    (merge3 base left other).conflicts
    ≡ record { base = "a" ∷ []; left = "A" ∷ []; right = "X" ∷ [] } ∷ []
unfolding merge3
merges_conflict = refl

apply-diff_example : apply (diff base right) base ≡ ok right
apply-diff_example = apply-diff base right

abbrev edit_left : Patch
edit_left = record {
  hunks = record { base_start = 0; remove = "a" ∷ []; insert = "A" ∷ "B" ∷ [] } ∷ [];
}

abbrev edit_right : Patch
edit_right = record { hunks = record { base_start = 3; remove = "d" ∷ []; insert = [] } ∷ [] }

abbrev edit_right_moved : Patch
edit_right_moved = record { hunks = record { base_start = 4; remove = "d" ∷ []; insert = [] } ∷ [] }

abbrev after_left : Doc
after_left = from_lines ("A" ∷ "B" ∷ "b" ∷ "c" ∷ "d" ∷ [])

abbrev after_right : Doc
after_right = from_lines ("a" ∷ "b" ∷ "c" ∷ [])

applies_left : apply edit_left base ≡ ok after_left
unfolding apply
applies_left = refl

applies_right : apply edit_right base ≡ ok after_right
unfolding apply
applies_right = refl

commutes : commute edit_left edit_right ≡ independent edit_left edit_right_moved
unfolding commute hunks_conflict rebase delta_sum delta ◌+ℤ◌ ◌-ℤ◌
commutes = refl

commute_sound_example :
    (merged : Doc) × (apply edit_right_moved after_left ≡ ok merged)
    × (apply edit_left after_right ≡ ok merged)
commute_sound_example =
    commute_sound edit_left edit_right edit_left edit_right_moved base after_left after_right
      applies_left applies_right commutes

merge3_comm_example :
    ((merge3 base other left).conflicts ≡ map flip (merge3 base left other).conflicts)
    × (is_clean (merge3 base left other) ≡ true
        → (merge3 base other left).merged ≡ (merge3 base left other).merged)
merge3_comm_example = merge3_comm base left other

merge_run-ends_example : (end : Output) × (merge_run base left other ≡ some end)
merge_run-ends_example = merge_run-ends base left other
