-- ===== src/Algebra/Patch/Applies.antt =====
-- What it is for hunks to turn one run of lines into another, and that `apply` computes it.
use mathlib.Core.List.{append_assoc}
use omoplata.Prelude.{
  ℕ, ◌+◌, ◌≤◌, ◌≡◌, refl, sym, ap, ◌∙◌, String, true, List, [], ◌∷◌, ◌++◌, ok, length, slice, drop,
  arith, ltb-eq-false, length-append, length-drop, ◌==◌, list_eq, string_eq, eq→eq, eq_self,
  slice-append-drop, length-slice, slice-prefix,
}
use omoplata.Algebra.Doc.{Doc, from_lines}
use omoplata.Algebra.Patch.{Hunk, Patch, support_end, apply_loop, apply}

-- From the base line `at` on, the hunks turn the lines `old` into the lines `new`: each stands
-- behind the one before it, and removes the very lines that it names.
pub data Applies : List Hunk → ℕ → List String → List String → Type 0 where
  done : {at : ℕ} {old new : List String} → old ≡ new → Applies [] at old new
  step :
      {h : Hunk} {hs : List Hunk} {at : ℕ} {old new : List String} (kept old' new' : List String)
      → h.base_start ≡ at + length kept
      → old ≡ kept ++ (h.remove ++ old')
      → new ≡ kept ++ (h.insert ++ new')
      → Applies hs (support_end h) old' new'
      → Applies (h ∷ hs) at old new

module _ (b : List String) where
  Emits : List Hunk → ℕ → List String → Doc → Type 0
  Emits hs at out d = (ys : List String) × (d.lines ≡ out ++ ys) × Applies hs at (drop at b) ys

  -- One hunk that passes the three tests of the loop.
  hunk_step :
      (h : Hunk) (hs : List Hunk) (at : ℕ) (out : List String) (d : Doc)
      → at ≤ h.base_start
      → support_end h ≤ length b
      → slice b h.base_start (support_end h) ≡ h.remove
      → Emits hs (support_end h) (out ++ (slice b at h.base_start ++ h.insert)) d
      → Emits (h ∷ hs) at out d
  unfolding Emits
  hunk_step h hs at out d ordered fits same (ys, e, rest) = (
    kept ++ (h.insert ++ ys),
    e ∙ simp append_assoc,
    step kept (drop (support_end h) b) ys
        (omega (arith, length-slice at h.base_start b (omega arith)))
        (sym (slice-append-drop at h.base_start b ordered)
          ∙ ap (λ l. kept ++ l)
              (sym (slice-append-drop h.base_start (support_end h) b (omega arith))
                ∙ ap (λ l. l ++ drop (support_end h) b) same))
        refl rest,
  )
    where
      kept : List String
      kept = slice b at h.base_start

  -- A hunk that the loop accepts has passed its three tests.
  accepted :
      (h : Hunk) (hs : List Hunk) (at : ℕ) (out : List String) (d : Doc)
      → apply_loop (h ∷ hs) b at out ≡ ok d
      → (at ≤ h.base_start)
        × (support_end h ≤ length b)
        × ((slice b h.base_start (support_end h) == h.remove) ≡ true)
        × (apply_loop hs b (support_end h) (out ++ (slice b at h.base_start ++ h.insert)) ≡ ok d)
  unfolding apply_loop
  accepted h hs at out d = ground arith

  apply_loop-Emits :
      (hs : List Hunk) (at : ℕ) (out : List String) (d : Doc)
      → apply_loop hs b at out ≡ ok d
      → Emits hs at out d
  unfolding apply_loop Emits
  apply_loop-Emits [] at out d e = (drop at b, cc, done refl)
  apply_loop-Emits (h ∷ hs) at out d e =
      let (ordered, fits, same, more) = accepted h hs at out d e in
      hunk_step h hs at out d ordered fits (eq→eq _ _ same)
        (apply_loop-Emits hs (support_end h) (out ++ (slice b at h.base_start ++ h.insert)) d more)

  -- The loop runs through hunks that fit, from any point of the base and after any output.
  Applies-apply_loop :
      {hs : List Hunk} {at : ℕ} {old new : List String}
      → Applies hs at old new
      → (out : List String) → old ≡ drop at b
      → at ≤ length b
      → apply_loop hs b at out ≡ ok (from_lines (out ++ new))
  unfolding apply_loop
  Applies-apply_loop (done same) out e h = rw (← same, e)
  Applies-apply_loop {at} {old} (step {h} {hs} kept old' new' at_kept eq_old eq_new rest) out e
        fits =
      let (kept_lem, behind) =
        slice-prefix at h.base_start b kept (h.remove ++ old') (sym e ∙ eq_old) (sym at_kept) in
      let (removed, left) = slice-prefix h.base_start (support_end h) b h.remove old' behind refl in
      let room : support_end h ≤ length b = omega (
        arith,
        length-drop at b,
        ap length (sym e ∙ eq_old),
        length-append kept (h.remove ++ old'),
        length-append h.remove old',
      ) in
      simp (
        ltb-eq-false h.base_start at (omega arith),
        ltb-eq-false (length b) (support_end h) room,
        removed,
        kept_lem,
        eq_self h.remove,
        Applies-apply_loop rest (out ++ (kept ++ h.insert)) (sym left) room,
        eq_new,
        append_assoc,
      )

-- A document that `apply` returns is one that the hunks lead to.
pub apply-Applies :
    (p : Patch) (base d : Doc) → apply p base ≡ ok d → Applies p.hunks 0 base.lines d.lines
unfolding apply Emits
apply-Applies p base d e = let (ys, eq, a) = apply_loop-Emits base.lines p.hunks 0 [] d e in rw eq a

-- `apply` accepts hunks that fit the base, and returns the document that they lead to.
pub Applies-apply :
    (p : Patch) (base d : Doc) → Applies p.hunks 0 base.lines d.lines → apply p base ≡ ok d
unfolding apply
Applies-apply p base d a = Applies-apply_loop base.lines a [] refl (omega arith)
