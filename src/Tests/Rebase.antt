-- ===== src/Tests/Rebase.antt =====
-- The rebase over conflicts and their resolution at a concrete document.
use omoplata.Prelude.{◌≡◌, refl, [], ◌∷◌, All, length, slice, arith}
use omoplata.Algebra.Doc.{Doc, from_lines}
use omoplata.Algebra.Merge.{Merge}
use omoplata.Algebra.Patch.{Patch, Range, from_hunks}
use omoplata.Algebra.Rebase.{regions_from, conflict_marker_regions, resolve_all, rebase_merge}
use omoplata.Algebra.Rebase.Carried.{Holds, rebase_merge-Holds}
use omoplata.Algebra.Rebase.Resolved.{conflict_marker_regions-resolve_all}

abbrev shown : Doc
shown = from_lines ("a" ∷ "<<<<<<< left" ∷ "X" ∷ "=======" ∷ "Y" ∷ ">>>>>>> right" ∷ "c" ∷ [])

abbrev prior : Merge
prior = record {
  merged = shown;
  conflicts = record { base = "b" ∷ []; left = "X" ∷ []; right = "Y" ∷ [] } ∷ [];
}

-- One hunk at the top, and one inside the region.
abbrev onto_patch : Patch
onto_patch = from_hunks (
    record { base_start = 0; remove = []; insert = "TOP" ∷ [] }
    ∷ record { base_start = 2; remove = "X" ∷ []; insert = "Z" ∷ [] }
    ∷ [])

rebase_merge-Holds_example :
    ((rebase_merge prior onto_patch).conflicts ≡ prior.conflicts)
    × All
        (λ (r : Range).
          Holds
            (slice prior.merged.lines r.start r.end)
            (rebase_merge prior onto_patch).merged.lines)
        (conflict_marker_regions prior.merged)
rebase_merge-Holds_example = rebase_merge-Holds prior onto_patch

rebased :
    (rebase_merge prior onto_patch).merged
    ≡ from_lines ("TOP" ∷ "a" ∷ "<<<<<<< left" ∷ "X" ∷ "=======" ∷ "Y" ∷ ">>>>>>> right" ∷ "c" ∷ [])
unfolding rebase_merge
rebased = refl

shown-regions : length (conflict_marker_regions shown) ≡ 1
unfolding regions_from
shown-regions = refl

conflict_marker_regions-resolve_all_example :
    conflict_marker_regions (resolve_all shown (("Z" ∷ []) ∷ [])) ≡ []
conflict_marker_regions-resolve_all_example =
    conflict_marker_regions-resolve_all shown (("Z" ∷ []) ∷ []) (omega (arith, shown-regions))
      ((refl, tt), tt)
