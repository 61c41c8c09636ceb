-- ===== src/Algebra/Patch/Diff.antt =====
-- The round trip of `diff` and `apply`.
use mathlib.Core.List.{append_assoc}
use native.Mathlib.Numerals.{add-one}
use omoplata.Prelude.{
  ℕ, zero, suc, ◌+◌, ◌≤◌, ◌<◌, ◌≡◌, refl, sym, ap, ◌∙◌, String, inl, inr, List, [], ◌∷◌, ◌++◌, some,
  ok, length, get_elem?, slice, drop, arith, Bool-cases, ltb, ◌||◌, if◌then◌else◌, length-slice,
  slice-append-drop, length-append,
}
use omoplata.Algebra.Doc.{Doc}
use omoplata.Algebra.Patch.{Hunk, apply, diff_loop, diff}
use omoplata.Algebra.Patch.Applies.{Applies, done, step, Applies-apply}
use omoplata.Algebra.Patch.Alignment.{IsAlignment, lcs_matches-IsAlignment}

-- Lines that stay as they are may stand in front of any hunks.
pub Applies-keep :
    {hs : List Hunk} {at : ℕ} {old new : List String} (kept : List String) {from : ℕ}
    → at ≡ from + length kept
    → Applies hs at old new
    → Applies hs from (kept ++ old) (kept ++ new)
Applies-keep kept e (done same) = done (ap (λ l. kept ++ l) same)
Applies-keep kept {from} e (step {h} {hs} {at} kept' old' new' start eq_old eq_new rest) =
    step (kept ++ kept') old' new' (omega (arith, length-append kept kept'))
      (ap (λ l. kept ++ l) eq_old ∙ sym (append_assoc kept kept' (h.remove ++ old')))
      (ap (λ l. kept ++ l) eq_new ∙ sym (append_assoc kept kept' (h.insert ++ new'))) rest

drop-at_suc :
    (i : ℕ) (xs : List String) {x : String}
    → get_elem? xs i ≡ some x
    → (drop i xs ≡ x ∷ drop (suc i) xs) × (i < length xs)
drop-at_suc zero [] e = cc
drop-at_suc (suc i) [] e = cc
drop-at_suc zero (y ∷ xs) e = (cc, omega arith)
drop-at_suc (suc i) (y ∷ xs) e = let (d, lt) = drop-at_suc i xs e in (d, omega arith)

-- The line at an index heads what is left from there on.
pub drop-at :
    (i : ℕ) (xs : List String) {x : String}
    → get_elem? xs i ≡ some x
    → (drop i xs ≡ x ∷ drop (i + 1) xs) × (i < length xs)
drop-at i xs e = rw add-one (drop-at_suc i xs e)

drop_all : (xs : List String) → drop (length xs) xs ≡ []
drop_all [] = refl
drop_all (x ∷ xs) = drop_all xs

module _ (b t : List String) where
  gap : ℕ → ℕ → ℕ → ℕ → List Hunk → List Hunk
  gap bi ti mb mt rest =
      if ltb bi mb || ltb ti mt
      then record { base_start = bi; remove = slice b bi mb; insert = slice t ti mt } ∷ rest
      else rest

  gap-Applies :
      (bi ti mb mt : ℕ) (rest : List Hunk)
      → bi ≤ mb
      → ti ≤ mt
      → mb ≤ length b
      → mt ≤ length t
      → Applies rest mb (drop mb b) (drop mt t)
      → Applies (gap bi ti mb mt rest) bi (drop bi b) (drop ti t)
  unfolding gap
  gap-Applies bi ti mb mt rest h k in_b in_t a =
      let end : bi + length (slice b bi mb) ≡ mb = omega (arith, length-slice bi mb b in_b) in
      elim (Bool-cases (ltb bi mb || ltb ti mt)) [
        | inl changed ↦ rw changed (
            step [] (drop mb b) (drop mt t) (omega arith) (sym (slice-append-drop bi mb b h))
              (sym (slice-append-drop ti mt t k)) (rw end a))
        | inr same ↦
            let eb : bi ≡ mb = ground arith in
            let et : ti ≡ mt = ground arith in rw (same, eb, et) a
      ]

  -- From the cursors on, the hunks of the loop turn the rest of the base into the rest of the
  -- target.
  diff_loop-Applies :
      (ms : List (ℕ × ℕ)) (bi ti : ℕ)
      → IsAlignment b t ms bi ti
      → Applies (diff_loop b t (ms ++ (length b, length t) ∷ []) bi ti) bi (drop bi b) (drop ti t)
  unfolding diff_loop gap
  diff_loop-Applies [] bi ti (h, k) =
      gap-Applies bi ti (length b) (length t) [] h k (omega arith) (omega arith)
        (done (drop_all b ∙ sym (drop_all t)))
  diff_loop-Applies ((mb, mt) ∷ ms) bi ti (line, h, k, at_b, at_t, rest) =
      let (eq_b, in_b) = drop-at mb b at_b in
      let (eq_t, in_t) = drop-at mt t at_t in
      gap-Applies bi ti mb mt _ h k (omega arith) (omega arith) (
        rw (eq_b, eq_t)
          (Applies-keep (line ∷ []) refl (diff_loop-Applies ms (mb + 1) (mt + 1) rest)))

-- The hunks of `diff base target` lead from the base to the target.
pub diff-Applies : (base target : Doc) → Applies (diff base target).hunks 0 base.lines target.lines
unfolding diff
diff-Applies base target =
    diff_loop-Applies base.lines target.lines _ 0 0
      (lcs_matches-IsAlignment base.lines target.lines)

-- Applying the diff of a base and a target to the base succeeds and gives the target exactly.
pub apply-diff : (base target : Doc) → apply (diff base target) base ≡ ok target
apply-diff base target = Applies-apply (diff base target) base target (diff-Applies base target)
