-- ===== src/Algebra/Patch.antt =====
-- crates/omoplata-algebra/src/patch.rs: hunks, the deterministic diff, and its application.
-- A `usize` is a number: every length and index of the code is bounded by a document that is in
-- memory. The cells of the table are `u32`, and their sum keeps its wrap-around.
pub mod Applies
pub mod Equality
pub mod Alignment
pub mod Diff
use omoplata.Prelude.{
  ℕ, ◌+◌, ◌%◌, ◌^◌, max, String, ◌||◌, List, [], ◌∷◌, ◌++◌, ◌==◌, Result, ok, err, length, get_or,
  slice, drop, replicate, ltb, leb, if◌then◌else◌, nat_eq, string_eq, list_eq,
}
use omoplata.Prelude.Int.{ℤ, pos, ◌+ℤ◌, ◌-ℤ◌}
use omoplata.Algebra.Doc.{Doc, from_lines}

pub record Hunk : Type 0 where
  pub base_start : ℕ
  pub remove : List String
  pub insert : List String

-- The end of a hunk's support.
abbrev pub support_end : Hunk → ℕ
support_end h = h.base_start + length h.remove

pub record Range : Type 0 where
  pub start : ℕ
  pub end : ℕ

unfoldable pub support : Hunk → Range
support h = record { start = h.base_start; end = support_end h }

unfoldable pub delta : Hunk → ℤ
delta h = pos (length h.insert) -ℤ pos (length h.remove)

pub record Patch : Type 0 where
  pub hunks : List Hunk

abbrev pub from_hunks : List Hunk → Patch
from_hunks hunks = record { hunks = hunks }

-- The sum over the hunks that end at or before `at`.
unfoldable pub delta_sum : List Hunk → ℕ → ℤ
delta_sum [] at = pos 0
delta_sum (h ∷ hs) at =
    let rest = delta_sum hs at in if leb (support_end h) at then delta h +ℤ rest else rest

abbrev pub delta_before : Patch → ℕ → ℤ
delta_before p at = delta_sum p.hunks at

pub data ApplyError : Type 0 where
  out_of_range : (base_start remove_len base_len : ℕ) → ApplyError
  context_mismatch : (base_start : ℕ) → ApplyError
  overlapping_hunks : (base_start prev_end : ℕ) → ApplyError

-- The loop of `apply`, at the line `at` of the base with the lines `out` emitted.
unfoldable pub apply_loop : List Hunk → List String → ℕ → List String → Result ApplyError Doc
apply_loop [] b at out = ok (from_lines (out ++ drop at b))
apply_loop (h ∷ hs) b at out =
    let rest = apply_loop hs b (support_end h) (out ++ (slice b at h.base_start ++ h.insert)) in
    if ltb h.base_start at
    then err (overlapping_hunks h.base_start at)
    else if ltb (length b) (support_end h)
    then err (out_of_range h.base_start (length h.remove) (length b))
    else if slice b h.base_start (support_end h) == h.remove
    then rest
    else err (context_mismatch h.base_start)

unfoldable pub apply : Patch → Doc → Result ApplyError Doc
unfolding apply_loop
apply patch base = apply_loop patch.hunks base.lines 0 []

abbrev pub u32_mod : ℕ
u32_mod = 2 ^ 32

-- Row `i` of the table, filled from its last cell back: `x` is a[i] and `below` is row i + 1.
unfoldable pub dp_row : String → List String → List ℕ → List ℕ
dp_row x [] below = 0 ∷ []
dp_row x (y ∷ ys) below =
    let row = dp_row x ys (drop 1 below) in
    (if x == y then (get_or below 1 0 + 1) % u32_mod else max (get_or below 0 0) (get_or row 0 0))
    ∷ row

-- dp[i][j] is the length of the longest common subsequence of a[i..] and b[j..].
unfoldable pub dp_table : List String → List String → List (List ℕ)
unfolding dp_row
dp_table [] b = replicate (length b + 1) 0 ∷ []
dp_table (x ∷ a) b = let rows = dp_table a b in dp_row x b (get_or rows 0 []) ∷ rows

abbrev pub cell : List (List ℕ) → ℕ → ℕ → ℕ
cell dp i j = get_or (get_or dp i []) j 0

-- The walk over the table, with the cursors `i` and `j` and the lines from them on.
unfoldable pub lcs_walk : List (List ℕ) → List String → List String → ℕ → ℕ → List (ℕ × ℕ)
lcs_walk dp [] b i j = []
lcs_walk dp (x ∷ a) [] i j = []
lcs_walk dp (x ∷ a) (y ∷ b) i j =
    let matched = (i, j) ∷ lcs_walk dp a b (i + 1) (j + 1) in
    let skip_a = lcs_walk dp a (y ∷ b) (i + 1) j in
    let skip_b = lcs_walk dp (x ∷ a) b i (j + 1) in
    if x == y
    then matched
    else if leb (cell dp i (j + 1)) (cell dp (i + 1) j)
    then skip_a
    else skip_b

unfoldable pub lcs_matches : List String → List String → List (ℕ × ℕ)
unfolding lcs_walk dp_table
lcs_matches a b = lcs_walk (dp_table a b) a b 0 0

-- The loop of `diff` over the matches and the sentinel.
unfoldable pub diff_loop : List String → List String → List (ℕ × ℕ) → ℕ → ℕ → List Hunk
diff_loop b t [] bi ti = []
diff_loop b t ((mb, mt) ∷ ms) bi ti =
    let rest = diff_loop b t ms (mb + 1) (mt + 1) in
    if ltb bi mb || ltb ti mt
    then record { base_start = bi; remove = slice b bi mb; insert = slice t ti mt } ∷ rest
    else rest

unfoldable pub diff : Doc → Doc → Patch
unfolding diff_loop lcs_matches
diff base target = from_hunks (
    diff_loop base.lines target.lines
      (lcs_matches base.lines target.lines ++ (length base.lines, length target.lines) ∷ []) 0 0)
