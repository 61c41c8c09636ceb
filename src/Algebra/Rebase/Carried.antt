-- ===== src/Algebra/Rebase/Carried.antt =====
-- A rebase over a patch keeps the conflicts, and the lines of each region that shows one.
use mathlib.Core.List.{append_assoc}
use omoplata.Prelude.{
  ◌≡◌, refl, ap, sym, ◌∙◌, ◌⊎◌, inl, inr, ℕ, zero, suc, ◌+◌, ◌≤◌, String, false, none, some, List,
  [], ◌∷◌, ◌++◌, All, length, length-append, take, drop, slice, slice-append-drop, take-append-drop,
  length-take, length-slice, ◌==◌, nat_eq, eq→eq, Result-cases, Bool-cases, Option-cases, arith,
  if◌then◌else◌,
}
use omoplata.Algebra.Doc.{Doc}
use omoplata.Algebra.Merge.{Merge}
use omoplata.Algebra.Patch.{Hunk, Patch, Range, from_hunks, support, support_end, apply}
use omoplata.Algebra.Patch.Applies.{Applies, done, step, apply-Applies}
use omoplata.Algebra.Rebase.{
  region_of, is_conflict_start, regions_from, conflict_marker_regions, overlaps_region,
  overlaps_any_region, safe_hunks, doc_or, rebase_merge,
}

-- Two ways to cut a list.
append_split :
    (xs ys zs ws : List String)
    → xs ++ ys ≡ zs ++ ws
    → length zs ≤ length xs
    → (m : List String) × (xs ≡ zs ++ m) × (ws ≡ m ++ ys)
append_split xs ys [] ws e h = (xs, refl, sym e)
append_split [] ys (z ∷ zs) ws e h = absurd (omega arith)
append_split (x ∷ xs) ys (z ∷ zs) ws e h =
    let same : xs ++ ys ≡ zs ++ ws = ground arith in
    let head : x ≡ z = ground arith in
    let (m, front, back) = append_split xs ys zs ws same (omega arith) in (m, ground arith, back)

-- The lines stand together somewhere in the list.
abbrev pub Holds : List String → List String → Type 0
Holds region lines =
    (before : List String) × (after : List String) × (lines ≡ before ++ (region ++ after))

-- A hunk ends before a region or begins behind it.
abbrev pub IsApart : (start end : ℕ) → Hunk → Type 0
IsApart start end h = (support_end h ≤ start) ⊎ (end ≤ h.base_start)

IsApart-overlaps :
    (h : Hunk) (r : Range) → overlaps_region (support h) r ≡ false → IsApart r.start r.end h
unfolding support
IsApart-overlaps h r e = elim (Bool-cases (h.base_start == support_end h)) [
  | inl same ↦ ground (arith, eq→eq h.base_start (support_end h) same)
  | inr other ↦ ground arith
]

placed :
    (kept inserted new new' x rest : List String)
    → new ≡ kept ++ (inserted ++ new')
    → new' ≡ x ++ rest
    → new ≡ (kept ++ (inserted ++ x)) ++ rest
placed kept inserted new new' x rest put e =
    put
    ∙ ap (λ (k : List String). kept ++ (inserted ++ k)) e
    ∙ sym (
        append_assoc kept (inserted ++ x) rest
        ∙ ap (λ (k : List String). kept ++ k) (append_assoc inserted x rest))

-- Hunks that stand apart from some lines leave them together.
Applies-Holds :
    (hs : List Hunk) (at : ℕ) (old new before region after : List String)
    → Applies hs at old new
    → old ≡ before ++ (region ++ after)
    → All (IsApart (at + length before) (at + length before + length region)) hs
    → Holds region new
Applies-Holds [] at old new before region after (done same) parts apart =
    (before, after, sym same ∙ parts)
Applies-Holds (h ∷ hs) at old new before region after (step kept old' new' start cut put more) parts
      (inl ends, apart) =
    let (m, front, back) =
      append_split before (region ++ after) (kept ++ h.remove) old'
        (sym parts ∙ cut ∙ sym (append_assoc kept h.remove old'))
        (omega (arith, length-append kept h.remove)) in
    let shorter : length before ≡ length kept + length h.remove + length m =
      ap length front
      ∙ length-append (kept ++ h.remove) m
      ∙ ap (λ (n : ℕ). n + length m) (length-append kept h.remove) in
    let place : support_end h + length m ≡ at + length before = omega (arith, shorter, start) in
    let (x, y, e) =
      Applies-Holds hs (support_end h) old' new' m region after more back (rw place apart) in
    (kept ++ (h.insert ++ x), y, placed kept h.insert new new' x (region ++ y) put e)
Applies-Holds (h ∷ hs) at old new before region after (step kept old' new' start cut put more) parts
      (inr begins, apart) =
    let (m, front, back) =
      append_split kept (h.remove ++ old') (before ++ region) after
        (sym cut ∙ parts ∙ sym (append_assoc before region after))
        (omega (arith, length-append before region)) in
    (
      before,
      m ++ (h.insert ++ new'),
      put
          ∙ ap (λ (k : List String). k ++ (h.insert ++ new')) front
          ∙ append_assoc (before ++ region) m (h.insert ++ new')
          ∙ append_assoc before region (m ++ (h.insert ++ new')),
    )

region_of-length :
    (ls region : List String) → region_of ls ≡ some region → length region ≤ length ls
unfolding region_of
region_of-length [] region h = absurd (cc (h))
region_of-length (l ∷ ls) region h = elim (Option-cases (region_of ls)) [
  | inl missing ↦ ground arith
  | inr (rest, found) ↦ let shorter = region_of-length ls rest found in ground arith
]

found-length :
    (l : String) (ls region : List String)
    → (if is_conflict_start l then region_of ls else none) ≡ some region
    → length region ≤ length ls
found-length l ls region h = elim (Bool-cases (is_conflict_start l)) [
  | inl opens ↦ region_of-length ls region (rw opens at h)
  | inr other ↦ let h' = rw other at h in absurd (cc (h'))
]

IsWithin : ℕ → Range → Type 0
IsWithin n r = (r.start ≤ r.end) × (r.end ≤ n)

regions_from-IsWithin :
    (skip i n : ℕ) (ls : List String)
    → i + length ls ≤ n
    → All (IsWithin n) (regions_from skip i ls)
unfolding regions_from IsWithin
regions_from-IsWithin skip i n [] h = tt
regions_from-IsWithin (suc skip) i n (l ∷ ls) h =
    regions_from-IsWithin skip (i + 1) n ls (omega arith)
regions_from-IsWithin zero i n (l ∷ ls) h =
    elim (Option-cases (if is_conflict_start l then region_of ls else none)) [
      | inl missing ↦
          rw (regions_from, missing) (regions_from-IsWithin zero (i + 1) n ls (omega arith))
      | inr (region, found) ↦
          rw (regions_from, found)
            (
              (omega arith, omega (arith, found-length l ls region found)),
              regions_from-IsWithin (length region) (i + 1) n ls (omega arith),
            )
    ]

safe_hunks-IsApart :
    (r : Range) (regions : List Range) (hs : List Hunk)
    → ((h : Hunk) → overlaps_any_region h regions ≡ false → IsApart r.start r.end h)
    → All (IsApart r.start r.end) (safe_hunks regions hs)
unfolding safe_hunks
safe_hunks-IsApart r regions [] clear = tt
safe_hunks-IsApart r regions (h ∷ hs) clear = elim (Bool-cases (overlaps_any_region h regions)) [
  | inl over ↦ rw over (safe_hunks-IsApart r regions hs clear)
  | inr off ↦ rw off (clear h off, safe_hunks-IsApart r regions hs clear)
]

apply_or-Holds :
    (hs : List Hunk) (d : Doc) (r : Range)
    → IsWithin (length d.lines) r
    → All (IsApart r.start r.end) hs
    → Holds (slice d.lines r.start r.end) (doc_or (apply (from_hunks hs) d) d).lines
unfolding IsWithin
apply_or-Holds hs d r (ordered, within) apart = elim (Result-cases (apply (from_hunks hs) d)) [
  | inl (e, failed) ↦ rw failed (take r.start d.lines, drop r.end d.lines, parts)
  | inr (d', went) ↦ rw went (
      Applies-Holds hs 0 d.lines d'.lines (take r.start d.lines) (slice d.lines r.start r.end)
        (drop r.end d.lines) (apply-Applies (from_hunks hs) d d' went) parts
        (rw (starts, ends) apart))
]
  where
    starts : 0 + length (take r.start d.lines) ≡ r.start
    starts = omega (arith, length-take r.start d.lines)

    ends : r.start + length (slice d.lines r.start r.end) ≡ r.end
    ends = omega (arith, length-slice r.start r.end d.lines within)

    parts : d.lines ≡ take r.start d.lines ++ (slice d.lines r.start r.end ++ drop r.end d.lines)
    parts =
        sym (take-append-drop r.start d.lines)
        ∙ ap (λ (k : List String). take r.start d.lines ++ k)
            (sym (slice-append-drop r.start r.end d.lines ordered))

-- Rebasing over a patch keeps the conflicts as they are, and the lines of each region that shows a
-- conflict, markers and all, stand together in the result.
pub rebase_merge-Holds :
    (prior : Merge) (onto_patch : Patch)
    → ((rebase_merge prior onto_patch).conflicts ≡ prior.conflicts)
      × All
          (λ (r : Range).
            Holds
              (slice prior.merged.lines r.start r.end)
              (rebase_merge prior onto_patch).merged.lines)
          (conflict_marker_regions prior.merged)
unfolding rebase_merge overlaps_any_region
rebase_merge-Holds prior onto_patch = (
  refl,
  each (conflict_marker_regions prior.merged) (λ h e. e)
      (regions_from-IsWithin 0 0 (length prior.merged.lines) prior.merged.lines (omega arith)),
)
  where
    regions : List Range
    regions = conflict_marker_regions prior.merged

    each :
        (rs : List Range)
        → ((h : Hunk) → overlaps_any_region h regions ≡ false → overlaps_any_region h rs ≡ false)
        → All (IsWithin (length prior.merged.lines)) rs
        → All
            (λ (r : Range).
              Holds
                (slice prior.merged.lines r.start r.end)
                (rebase_merge prior onto_patch).merged.lines)
            rs
    each [] clear within = tt
    each (r ∷ rs) clear (one, within) = (
      apply_or-Holds (safe_hunks regions onto_patch.hunks) prior.merged r one (
          safe_hunks-IsApart r regions onto_patch.hunks
            (λ h e. let off = clear h e in IsApart-overlaps h r (ground arith))),
      each rs (λ h e. let off = clear h e in ground arith) within,
    )
