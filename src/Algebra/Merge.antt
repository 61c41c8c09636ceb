-- ===== src/Algebra/Merge.antt =====
-- crates/omoplata-algebra/src/merge.rs: the three-way merge, with conflicts as values.
-- An index out of range panics in the source; `get_or` and `slice` are total here. The
-- fuel of the loop is the subject of Merge/Total.
pub mod Symmetry
pub mod Total
use omoplata.Prelude.{
  ℕ, zero, suc, ◌+◌, ◌-◌, String, Bool, true, false, ◌&&◌, ◌||◌, Option, none, some, List, [], ◌∷◌,
  ◌++◌, ◌==◌, nat_eq, string_eq, list_eq, length, empty, get_or, set, replicate, slice, drop, leb,
  ltb, if◌then◌else◌,
}
use omoplata.Algebra.Doc.{Doc, from_lines}
use omoplata.Algebra.Patch.{lcs_matches}

abbrev pub conflict_start : String
conflict_start = "<<<<<<< left"

abbrev pub conflict_sep : String
conflict_sep = "======="

abbrev pub conflict_end : String
conflict_end = ">>>>>>> right"

pub record Conflict : Type 0 where
  pub base : List String
  pub left : List String
  pub right : List String

pub record Merge : Type 0 where
  pub merged : Doc
  pub conflicts : List Conflict

unfoldable pub is_clean : Merge → Bool
is_clean m = empty m.conflicts

-- The two vectors that the merge fills.
pub record Output : Type 0 where
  pub merged : List String
  pub conflicts : List Conflict

unfoldable pub emit_region : List String → List String → List String → Output → Output
emit_region o lft rgt out =
    if lft == o
    then record out { merged = out.merged ++ rgt }
    else if rgt == o || lft == rgt
    then record out { merged = out.merged ++ lft }
    else record {
      merged =
          out.merged
          ++ (conflict_start ∷ [] ++ (lft ++ (conflict_sep ∷ [] ++ (rgt ++ conflict_end ∷ []))));
      conflicts = out.conflicts ++ record { base = o; left = lft; right = rgt } ∷ [];
    }

-- `for (o, a) in matches { la[o] = Some(a) }`
unfoldable pub fill : List (ℕ × ℕ) → List (Option ℕ) → List (Option ℕ)
fill [] la = la
fill ((o, a) ∷ ms) la = fill ms (set la o (some a))

unfoldable pub alignment : List String → List String → List (Option ℕ)
unfolding fill lcs_matches
alignment b side = fill (lcs_matches b side) (replicate (length b) none)

-- `la[i] == Some(a)`
abbrev pub matched_to : Option ℕ → ℕ → Bool
matched_to none a = false
matched_to (some x) a = x == a

abbrev pub is_some : Option ℕ → Bool
is_some none = false
is_some (some x) = true

abbrev pub unwrap_or : Option ℕ → ℕ → ℕ
unwrap_or none d = d
unwrap_or (some x) d = x

-- The cursors in the base, the left and the right document.
pub record Cursors : Type 0 where
  pub i : ℕ
  pub a : ℕ
  pub bx : ℕ

module _ (b l r : List String) (la lb : List (Option ℕ)) where
  abbrev pub in_sync : Cursors → Bool
  in_sync c = matched_to (get_or la c.i none) c.a && matched_to (get_or lb c.i none) c.bx

  abbrev pub advance : Cursors → Cursors
  advance c = record { i = c.i + 1; a = c.a + 1; bx = c.bx + 1 }

  -- The stable run, with at most `rounds` base lines ahead.
  unfoldable pub stable_run : ℕ → Cursors → Output → Cursors × Output
  stable_run zero c out = (c, out)
  stable_run (suc rounds) c out =
      let next =
        stable_run rounds (advance c)
          (record out { merged = out.merged ++ get_or b c.i "" ∷ [] }) in
      if in_sync c then next else (c, out)

  -- The next base line at or after `j` that is matched in both sides, or the end of the base.
  unfoldable pub find_anchor : ℕ → ℕ → ℕ
  find_anchor zero j = j
  find_anchor (suc rounds) j =
      let later = find_anchor rounds (j + 1) in
      if is_some (get_or la j none) && is_some (get_or lb j none) then j else later

  -- The cursors at the anchor `j`.
  unfoldable pub at_anchor : Cursors → ℕ → Cursors
  at_anchor c j =
      if ltb j (length b)
      then record {
        i = j;
        a = unwrap_or (get_or la j none) c.a;
        bx = unwrap_or (get_or lb j none) c.bx;
      }
      else record { i = j; a = length l; bx = length r }

  -- The region from the cursors `c` up to the cursors `d`.
  unfoldable pub emit_between : Cursors → Cursors → Output → Output
  emit_between c d out = emit_region (slice b c.i d.i) (slice l c.a d.a) (slice r c.bx d.bx) out

  abbrev pub next_anchor : Cursors → Cursors
  next_anchor c = at_anchor c (find_anchor (length b - c.i) c.i)

  -- One round of the loop behind its stable run; `onward` is the rest of the loop.
  unfoldable pub merge_round : (Cursors → Output → Option Output) → Cursors → Output → Option Output
  merge_round onward c out =
      let rest = onward (next_anchor c) (emit_between c (next_anchor c) out) in
      if leb (length b) c.i then some (emit_region [] (drop c.a l) (drop c.bx r) out) else rest

  -- The loop of `merge3`; `none` means that the fuel ran out.
  unfoldable pub merge_loop : ℕ → Cursors → Output → Option Output
  merge_loop zero c out = none
  merge_loop (suc fuel) c out =
      let (c', out') = stable_run (length b - c.i) c out in merge_round (merge_loop fuel) c' out'

abbrev pub start : Cursors
start = record { i = 0; a = 0; bx = 0 }

abbrev pub no_output : Output
no_output = record { merged = []; conflicts = [] }

unfoldable pub merge_run : Doc → Doc → Doc → Option Output
unfolding merge_loop merge_round stable_run find_anchor at_anchor emit_between emit_region alignment
merge_run base left right =
    merge_loop base.lines left.lines right.lines (alignment base.lines left.lines)
      (alignment base.lines right.lines) (length base.lines + 2) start no_output

-- The lines and the conflicts of a loop that has ended.
abbrev pub finish : Option Output → Merge
finish none = record { merged = from_lines []; conflicts = [] }
finish (some out) = record { merged = from_lines out.merged; conflicts = out.conflicts }

unfoldable pub merge3 : Doc → Doc → Doc → Merge
unfolding merge_run
merge3 base left right = finish (merge_run base left right)
