-- ===== src/Algebra/Rebase.antt =====
-- crates/omoplata-algebra/src/rebase.rs: the replay of a change on a new base, stacks of changes, and
-- the conflicts that a document shows between markers. A loop that goes on behind a region skips the
-- lines of the region.
pub mod Carried
pub mod Resolved
use omoplata.Prelude.{
  ℕ, zero, suc, ◌+◌, String, Bool, true, false, not, ◌&&◌, ◌||◌, Option, none, some, List, [], ◌∷◌,
  ◌++◌, map, length, empty, ltb, ◌==◌, nat_eq, string_eq, Result, ok, err, if◌then◌else◌,
}
use omoplata.Algebra.Doc.{Doc, from_lines}
use omoplata.Algebra.Merge.{Conflict, Merge, conflict_start, conflict_sep, conflict_end, merge3}
use omoplata.Algebra.Patch.{Hunk, Patch, Range, from_hunks, support, ApplyError, apply}

abbrev pub rebase_mine : String
rebase_mine = "<<<<<<< mine"

abbrev pub rebase_sep : String
rebase_sep = conflict_sep

abbrev pub rebase_onto : String
rebase_onto = ">>>>>>> onto"

pub record Rebased : Type 0 where
  pub result : Doc
  pub conflicts : List Conflict
  pub clean : Bool

unfoldable pub as_merge : Rebased → Merge
as_merge r = record { merged = r.result; conflicts = r.conflicts }

abbrev pub relabel : String → String
relabel l =
    if l == conflict_start then rebase_mine else if l == conflict_end then rebase_onto else l

abbrev pub relabel_to_rebase_markers : Doc → Doc
relabel_to_rebase_markers merged = from_lines (map relabel merged.lines)

unfoldable pub rebase : Doc → Doc → Doc → Rebased
unfolding merge3
rebase base mine onto =
    let m = merge3 base mine onto in
    record {
      result = relabel_to_rebase_markers m.merged;
      conflicts = m.conflicts;
      clean = empty m.conflicts;
    }

abbrev pub is_conflict_start : String → Bool
is_conflict_start line = line == conflict_start || line == rebase_mine

abbrev pub is_conflict_end : String → Bool
is_conflict_end line = line == conflict_end || line == rebase_onto

abbrev pub cons_region : String → Option (List String) → Option (List String)
cons_region l none = none
cons_region l (some region) = some (l ∷ region)

-- The lines behind a start marker, up to the first end marker and with it.
unfoldable pub region_of : List String → Option (List String)
region_of [] = none
region_of (l ∷ ls) =
    let rest = region_of ls in if is_conflict_end l then some (l ∷ []) else cons_region l rest

-- The regions among the lines from number `i` on, behind the next `skip` lines.
unfoldable pub regions_from : (skip i : ℕ) → List String → List Range
unfolding region_of
regions_from skip i [] = []
regions_from (suc skip) i (l ∷ ls) = regions_from skip (i + 1) ls
regions_from zero i (l ∷ ls) = elim (if is_conflict_start l then region_of ls else none) [
  | none ↦ regions_from zero (i + 1) ls
  | some region ↦
      record { start = i; end = i + 1 + length region } ∷ regions_from (length region) (i + 1) ls
]

abbrev pub conflict_marker_regions : Doc → List Range
conflict_marker_regions d = regions_from 0 0 d.lines

abbrev pub overlaps_region : Range → Range → Bool
overlaps_region s r =
    if s.start == s.end
    then ltb r.start s.start && ltb s.start r.end
    else ltb s.start r.end && ltb r.start s.end

unfoldable pub overlaps_any_region : Hunk → List Range → Bool
unfolding support
overlaps_any_region h [] = false
overlaps_any_region h (r ∷ regions) = overlaps_region (support h) r || overlaps_any_region h regions

unfoldable pub safe_hunks : List Range → List Hunk → List Hunk
unfolding overlaps_any_region
safe_hunks regions [] = []
safe_hunks regions (h ∷ hs) =
    let rest = safe_hunks regions hs in if overlaps_any_region h regions then rest else h ∷ rest

abbrev pub doc_or : Result ApplyError Doc → Doc → Doc
doc_or (ok d) d' = d
doc_or (err e) d' = d'

unfoldable pub rebase_merge : Merge → Patch → Merge
unfolding regions_from safe_hunks apply
rebase_merge prior onto_patch =
    let safe = from_hunks (safe_hunks (conflict_marker_regions prior.merged) onto_patch.hunks) in
    record { merged = doc_or (apply safe prior.merged) prior.merged; conflicts = prior.conflicts }

-- The loop of `rebase_stack`, with the version before and the document that it grows.
unfoldable pub stack_loop : (prev acc : Doc) → List Doc → List Rebased
unfolding rebase
stack_loop prev acc [] = []
stack_loop prev acc (version ∷ stack) =
    rebase prev version acc ∷ stack_loop version (rebase prev version acc).result stack

unfoldable pub rebase_stack : Doc → List Doc → Doc → List Rebased
unfolding stack_loop
rebase_stack base stack onto = stack_loop base onto stack

abbrev pub resolve : Conflict → List String → List String
resolve conflict chosen = chosen

-- The resolutions that are left for the regions to come.
abbrev pub later : List (List String) → List (List String)
later [] = []
later (chosen ∷ resolutions) = resolutions

-- What a region becomes: the lines chosen for it, or itself where there are none.
abbrev pub collapsed : String → List String → List (List String) → List String
collapsed l region [] = l ∷ region
collapsed l region (chosen ∷ resolutions) = chosen

unfoldable pub resolve_loop : (skip : ℕ) → List String → List (List String) → List String
unfolding region_of
resolve_loop skip [] resolutions = []
resolve_loop (suc skip) (l ∷ ls) resolutions = resolve_loop skip ls resolutions
resolve_loop zero (l ∷ ls) resolutions = elim (if is_conflict_start l then region_of ls else none) [
  | none ↦ l ∷ resolve_loop zero ls resolutions
  | some region ↦
      collapsed l region resolutions ++ resolve_loop (length region) ls (later resolutions)
]

unfoldable pub resolve_all : Doc → List (List String) → Doc
unfolding resolve_loop
resolve_all rendered resolutions = from_lines (resolve_loop 0 rendered.lines resolutions)
