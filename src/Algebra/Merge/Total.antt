-- ===== src/Algebra/Merge/Total.antt =====
-- The fuel of the merge is enough: its loop always ends.
use omoplata.Prelude.{
  ℕ, zero, suc, ◌+◌, ◌-◌, ◌≤◌, ◌<◌, ◌≡◌, ◌⊎◌, String, true, ◌&&◌, inl, inr, Option, none, some,
  List, [], Bool-cases, eq_self, nat_eq, length, drop, get_or, leb, ltb, arith,
}
use omoplata.Algebra.Doc.{Doc}
use omoplata.Algebra.Merge.{
  Output, emit_region, alignment, is_some, matched_to, unwrap_or, Cursors, in_sync, advance,
  stable_run, find_anchor, at_anchor, emit_between, next_anchor, merge_round, merge_loop, merge_run,
  start, no_output,
}

matched_to-unwrap_or :
    (o : Option ℕ) (d : ℕ) → is_some o ≡ true → matched_to o (unwrap_or o d) ≡ true
matched_to-unwrap_or none d e = cc
matched_to-unwrap_or (some x) d e = eq_self x

module _ (b l r : List String) (la lb : List (Option ℕ)) where
  -- The loop goes on from these cursors by at least one line.
  abbrev IsReady : Cursors → Type 0
  IsReady c = (length b ≤ c.i) ⊎ (in_sync b l r la lb c ≡ true)

  abbrev IsAnchor : ℕ → Type 0
  IsAnchor j = (is_some (get_or la j none) ≡ true) × (is_some (get_or lb j none) ≡ true)

  find_anchor_lem :
      (rounds j : ℕ)
      → length b ≤ j + rounds
      → (j ≤ find_anchor b l r la lb rounds j)
        × ((length b ≤ find_anchor b l r la lb rounds j)
            ⊎ IsAnchor (find_anchor b l r la lb rounds j))
  unfolding find_anchor
  find_anchor_lem zero j h = (omega arith, inl (omega arith))
  find_anchor_lem (suc n) j h =
      elim (Bool-cases (is_some (get_or la j none) && is_some (get_or lb j none))) [
        | inl here ↦ rw here (omega arith, inr (ground arith))
        | inr later ↦
            rw later
              (let (far, found) = find_anchor_lem n (j + 1) (omega arith) in (omega arith, found))
      ]

  both_sync :
      (j : ℕ) (c : Cursors)
      → (length b ≤ j) ⊎ IsAnchor j
      → j < length b
      → (matched_to (get_or la j none) (unwrap_or (get_or la j none) c.a)
          && matched_to (get_or lb j none) (unwrap_or (get_or lb j none) c.bx))
        ≡ true
  both_sync j c (inl past) h = absurd (omega arith)
  both_sync j c (inr (x, y)) h =
      rw (matched_to-unwrap_or (get_or la j none) c.a x)
        (matched_to-unwrap_or (get_or lb j none) c.bx y)

  next_anchor-IsReady :
      (c : Cursors) → (c.i ≤ (next_anchor b l r la lb c).i) × IsReady (next_anchor b l r la lb c)
  unfolding at_anchor
  next_anchor-IsReady c =
      let j = find_anchor b l r la lb (length b - c.i) c.i in
      let (far, found) = find_anchor_lem (length b - c.i) c.i (omega arith) in
      elim (Bool-cases (ltb j (length b))) [
        | inl inside ↦ rw inside (far, inr (both_sync j c found (ground arith)))
        | inr outside ↦ rw outside (far, inl (ground arith))
      ]

  stable_run-le :
      (rounds : ℕ) (c : Cursors) (out : Output) → c.i ≤ (stable_run b l r la lb rounds c out).0.i
  unfolding stable_run
  stable_run-le zero c out = omega arith
  stable_run-le (suc n) c out = elim (Bool-cases (in_sync b l r la lb c)) [
    | inl more ↦ rw more (omega (arith, stable_run-le n (advance b l r la lb c)))
    | inr stop ↦ rw stop (omega arith)
  ]

  stable_run-lt :
      (rounds : ℕ) (c : Cursors) (out : Output)
      → 0 < rounds
      → in_sync b l r la lb c ≡ true
      → c.i < (stable_run b l r la lb rounds c out).0.i
  unfolding stable_run
  stable_run-lt zero c out h e = absurd (omega arith)
  stable_run-lt (suc n) c out h e = rw e (omega (arith, stable_run-le n (advance b l r la lb c)))

  merge_round-ends :
      (f : Cursors → Output → Option Output) (c : Cursors) (out : Output)
      → (c.i < length b
          → (end : Output) × (f
                (next_anchor b l r la lb c)
                (emit_between b l r la lb c (next_anchor b l r la lb c) out)
              ≡ some end))
      → (end : Output) × (merge_round b l r la lb f c out ≡ some end)
  unfolding merge_round
  merge_round-ends f c out onward = elim (Bool-cases (leb (length b) c.i)) [
    | inl over ↦ (emit_region [] (drop c.a l) (drop c.bx r) out, rw over)
    | inr more ↦ let (end, e) = onward (ground arith) in (end, rw more e)
  ]

  -- A stable run from cursors that are ready leaves less of the base, or none.
  run_on :
      (c : Cursors) (out : Output)
      → IsReady c
      → (stable_run b l r la lb (length b - c.i) c out).0.i < length b
      → c.i < (stable_run b l r la lb (length b - c.i) c out).0.i
  run_on c out (inl past) h = absurd (omega (arith, stable_run-le (length b - c.i) c out))
  run_on c out (inr sync) h =
      stable_run-lt (length b - c.i) c out (omega (arith, stable_run-le (length b - c.i) c out))
        sync

  merge_loop-ends :
      (fuel : ℕ) (c : Cursors) (out : Output)
      → IsReady c
      → length b - c.i < fuel
      → (end : Output) × (merge_loop b l r la lb fuel c out ≡ some end)
  unfolding merge_loop
  merge_loop-ends zero c out ready h = absurd (omega arith)
  merge_loop-ends (suc fuel) c out ready h =
      let c' : Cursors = (stable_run b l r la lb (length b - c.i) c out).0 in
      merge_round-ends (merge_loop b l r la lb fuel) c' _ λ more.
        merge_loop-ends fuel (next_anchor b l r la lb c') _ (next_anchor-IsReady c').1
          (omega (arith, run_on c out ready more, (next_anchor-IsReady c').0))

  merge_loop-ends_start :
      (fuel : ℕ) (out : Output)
      → length b < fuel
      → (end : Output) × (merge_loop b l r la lb (suc fuel) start out ≡ some end)
  unfolding merge_loop
  merge_loop-ends_start fuel out h =
      let c' : Cursors = (stable_run b l r la lb (length b - 0) start out).0 in
      merge_round-ends (merge_loop b l r la lb fuel) c' _ λ more.
        merge_loop-ends fuel (next_anchor b l r la lb c') _ (next_anchor-IsReady c').1 (omega arith)

-- The merge of any three documents ends: two more rounds than the base has lines are enough.
pub merge_run-ends :
    (base left right : Doc) → (end : Output) × (merge_run base left right ≡ some end)
unfolding merge_run
merge_run-ends base left right =
    let enough : length base.lines + 2 ≡ suc (length base.lines + 1) = omega arith in
    rw enough (
      merge_loop-ends_start base.lines left.lines right.lines (alignment base.lines left.lines)
        (alignment base.lines right.lines) (length base.lines + 1) no_output (omega arith))
