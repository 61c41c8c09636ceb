-- ===== src/Algebra/Merge/Symmetry.antt =====
-- The merge with the two sides exchanged.
use omoplata.Prelude.{
  ℕ, zero, suc, ◌+◌, ◌-◌, ◌≡◌, refl, ap, ◌∙◌, String, true, inl, inr, Option, none, some, List, [],
  ◌∷◌, ◌++◌, map, eq→eq, eq_self, beq_comm, Bool-cases, nat_eq, string_eq, list_eq, length, empty,
  get_or, drop, leb, arith,
}
use mathlib.Core.List.{map-append}
use omoplata.Algebra.Doc.{Doc, from_lines}
use omoplata.Algebra.Merge.{
  Conflict, is_clean, Output, emit_region, alignment, Cursors, in_sync, advance, stable_run,
  find_anchor, at_anchor, emit_between, next_anchor, merge_round, merge_loop, merge_run, merge3,
  start, no_output, finish,
}

-- A conflict seen from the other side.
abbrev pub flip : Conflict → Conflict
flip c = record c { left = c.right; right = c.left }

abbrev flip_cursors : Cursors → Cursors
flip_cursors c = record c { a = c.bx; bx = c.a }

-- The conflicts are flipped one by one; and while there are none, the lines agree.
record Mirrors (out out' : Output) : Type 0 where
  conflicts : out'.conflicts ≡ map flip out.conflicts
  lines : out.conflicts ≡ [] → out'.merged ≡ out.merged

append-ne-nil {ℓ} : {A : Type ℓ} (x : A) (xs ys : List A) → xs ++ x ∷ ys ≡ [] → ⊥
append-ne-nil x [] ys e = cc
append-ne-nil x (y ∷ xs) ys e = cc

module _ (o lft rgt : List String) (out out' : Output) (m : Mirrors out out') where
  emit_region-conflicts :
      (emit_region o rgt lft out').conflicts ≡ map flip (emit_region o lft rgt out).conflicts
  unfolding emit_region
  emit_region-conflicts = ground (
    arith,
    beq_comm lft rgt,
    eq→eq lft o,
    eq→eq rgt o,
    m.conflicts,
    eq_self o,
    map-append flip out.conflicts (record { base = o; left = lft; right = rgt } ∷ []),
  )

  emit_region-lines :
      (emit_region o lft rgt out).conflicts ≡ []
      → (emit_region o rgt lft out').merged ≡ (emit_region o lft rgt out).merged
  unfolding emit_region
  emit_region-lines = ground (
    arith,
    beq_comm lft rgt,
    eq→eq lft o,
    eq→eq rgt o,
    eq→eq lft rgt,
    m.lines,
    eq_self o,
    append-ne-nil {A = Conflict} (record { base = o; left = lft; right = rgt }) out.conflicts [],
  )

  emit_region-Mirrors : Mirrors (emit_region o lft rgt out) (emit_region o rgt lft out')
  emit_region-Mirrors = record { conflicts = emit_region-conflicts; lines = emit_region-lines }

-- The state of the loop with the sides exchanged.
record IsFlipped (c c' : Cursors) (out out' : Output) : Type 0 where
  cursors : c' ≡ flip_cursors c
  output : Mirrors out out'

module _ (b l r : List String) (la lb : List (Option ℕ)) where
  in_sync-flip : (c : Cursors) → in_sync b r l lb la (flip_cursors c) ≡ in_sync b l r la lb c
  in_sync-flip c = ground arith

  stable_run-IsFlipped :
      (rounds : ℕ) (c : Cursors) (out out' : Output)
      → Mirrors out out'
      → IsFlipped
          (stable_run b l r la lb rounds c out).0
          (stable_run b r l lb la rounds (flip_cursors c) out').0
          (stable_run b l r la lb rounds c out).1
          (stable_run b r l lb la rounds (flip_cursors c) out').1
  unfolding stable_run
  stable_run-IsFlipped zero c out out' m = record { cursors = refl; output = m }
  stable_run-IsFlipped (suc n) c out out' m = elim (Bool-cases (in_sync b l r la lb c)) [
    | inl more ↦
        rw (more, in_sync-flip c ∙ more)
          (stable_run-IsFlipped n (advance b l r la lb c) _ _ (record {
            conflicts = m.conflicts;
            lines = λ e. ap (λ x. x ++ get_or b c.i "" ∷ []) (m.lines e);
          }))
    | inr stop ↦ rw (stop, in_sync-flip c ∙ stop) (record { cursors = refl; output = m })
  ]

  find_anchor-flip :
      (rounds j : ℕ) → find_anchor b r l lb la rounds j ≡ find_anchor b l r la lb rounds j
  unfolding find_anchor
  find_anchor-flip zero j = refl
  find_anchor-flip (suc n) j = ground (arith, find_anchor-flip n (j + 1))

  at_anchor-flip :
      (c : Cursors) (j : ℕ)
      → at_anchor b r l lb la (flip_cursors c) j ≡ flip_cursors (at_anchor b l r la lb c j)
  unfolding at_anchor
  at_anchor-flip c j = ground arith

-- Both runs end, or neither does, and what they end with mirrors.
data BothEnd : Option Output → Option Output → Type 0 where
  neither : BothEnd none none
  both : {out out' : Output} → Mirrors out out' → BothEnd (some out) (some out')

module _ (b l r : List String) (la lb : List (Option ℕ)) where
  next_anchor-flip :
      (c : Cursors)
      → next_anchor b r l lb la (flip_cursors c) ≡ flip_cursors (next_anchor b l r la lb c)
  next_anchor-flip c =
      rw find_anchor-flip
        (at_anchor-flip b l r la lb c (find_anchor b l r la lb (length b - c.i) c.i))

  merge_round-BothEnd :
      (f g : Cursors → Output → Option Output)
      → ((c : Cursors) (out out' : Output)
          → Mirrors out out'
          → BothEnd (f c out) (g (flip_cursors c) out'))
      → (c : Cursors) (out out' : Output) → Mirrors out out'
      → BothEnd (merge_round b l r la lb f c out) (merge_round b r l lb la g (flip_cursors c) out')
  unfolding merge_round emit_between
  merge_round-BothEnd f g onward c out out' m = elim (Bool-cases (leb (length b) c.i)) [
    | inl over ↦ rw over (both (emit_region-Mirrors [] (drop c.a l) (drop c.bx r) out out' m))
    | inr more ↦
        rw (more, next_anchor-flip c)
          (onward (next_anchor b l r la lb c) _ _ (emit_region-Mirrors _ _ _ out out' m))
  ]

  merge_loop-BothEnd :
      (fuel : ℕ) (c : Cursors) (out out' : Output)
      → Mirrors out out'
      → BothEnd
          (merge_loop b l r la lb fuel c out)
          (merge_loop b r l lb la fuel (flip_cursors c) out')
  unfolding merge_loop
  merge_loop-BothEnd zero c out out' m = neither
  merge_loop-BothEnd (suc fuel) c out out' m =
      let s = stable_run-IsFlipped b l r la lb (length b - c.i) c out out' m in
      rw s.cursors (
        merge_round-BothEnd (merge_loop b l r la lb fuel) (merge_loop b r l lb la fuel)
          (merge_loop-BothEnd fuel) _ _ _ s.output)

nil_of_empty {ℓ} : {A : Type ℓ} (xs : List A) → empty xs ≡ true → xs ≡ []
nil_of_empty [] e = refl
nil_of_empty (x ∷ xs) e = cc

finish-BothEnd :
    {o o' : Option Output}
    → BothEnd o o'
    → ((finish o').conflicts ≡ map flip (finish o).conflicts)
      × (is_clean (finish o) ≡ true → (finish o').merged ≡ (finish o).merged)
unfolding is_clean
finish-BothEnd neither = (refl, λ e. refl)
finish-BothEnd (both {out} m) =
    (m.conflicts, λ e. ap from_lines (m.lines (nil_of_empty out.conflicts e)))

-- Exchanging the two sides exchanges the two sides of each conflict, in the same order, and changes
-- nothing else: a clean merge gives the same document.
pub merge3_comm :
    (base left right : Doc)
    → ((merge3 base right left).conflicts ≡ map flip (merge3 base left right).conflicts)
      × (is_clean (merge3 base left right) ≡ true
          → (merge3 base right left).merged ≡ (merge3 base left right).merged)
unfolding merge3 merge_run
merge3_comm base left right = finish-BothEnd (
    merge_loop-BothEnd base.lines left.lines right.lines (alignment base.lines left.lines)
      (alignment base.lines right.lines) (length base.lines + 2) start no_output no_output
      (record { conflicts = refl; lines = λ e. refl }))
