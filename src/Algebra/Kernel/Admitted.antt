-- ===== src/Algebra/Kernel/Admitted.antt =====
-- When `admit` merges, and what it merges to.
use mathlib.Core.Path.{subst}
use omoplata.Prelude.{◌≡◌, ◌⊎◌, inl, inr, refl, sym, ap, ◌∙◌, ok, List}
use omoplata.Algebra.Doc.{Doc}
use omoplata.Algebra.Patch.{Patch, apply, diff}
use omoplata.Algebra.Patch.Diff.{apply-diff}
use omoplata.Algebra.Commute.{Commutation, independent, overlap, commute, combine}
use omoplata.Algebra.Commute.Sound.{commute_sound, commute_comm, swap}
use omoplata.Algebra.Merge.{Conflict, merge3}
use omoplata.Algebra.Kernel.{CommutationWitness, merged, conflict, admit}

abbrev pub witness_of : Doc → Doc → Doc → CommutationWitness
witness_of base left right = record { p = diff base left; q = diff base right }

pub merged-injective :
    {d e : Doc} {v w : CommutationWitness} → merged d v ≡ merged e w → (d ≡ e) × (v ≡ w)
merged-injective h = (cc, cc)

pub conflict-ne-merged :
    {cs : List Conflict} {d : Doc} {w : CommutationWitness} → conflict cs ≡ merged d w → ⊥
conflict-ne-merged h = cc

module _ (base left right : Doc) where
  -- The check finds the two diffs independent, and the document reached from either side by the
  -- rebased diff of the other is `result`.
  pub record Merges (result : Doc) : Type 0 where
    pub left_rebased : Patch
    pub right_rebased : Patch
    pub commuting :
        commute (diff base left) (diff base right) ≡ independent left_rebased right_rebased
    pub from_left : apply right_rebased left ≡ ok result
    pub from_right : apply left_rebased right ≡ ok result

  combine_lem : (q' : Patch) → combine base (diff base left) q' ≡ apply q' left
  unfolding combine
  combine_lem q' = rw (apply-diff base left)

  -- Independent diffs are merged.
  pub admit-independent :
      (p' q' : Patch)
      → commute (diff base left) (diff base right) ≡ independent p' q'
      → (result : Doc) × Merges result
        × (admit base left right ≡ merged result (witness_of base left right))
  unfolding admit
  admit-independent p' q' e =
      let (result, l, r) =
        commute_sound (diff base left) (diff base right) p' q' base left right
          (apply-diff base left) (apply-diff base right) e in
      (
        result,
        record {
          left_rebased = p';
          right_rebased = q';
          commuting = e;
          from_left = l;
          from_right = r;
        },
        rw (e, admit, combine_lem q', l),
      )

  admit-overlap :
      commute (diff base left) (diff base right) ≡ overlap
      → admit base left right ≡ conflict (merge3 base left right).conflicts
  unfolding admit
  admit-overlap e = rw (e, admit)

  Commutation-cases :
      (c : Commutation) → ((p : Patch) × (q : Patch) × (c ≡ independent p q)) ⊎ (c ≡ overlap)
  Commutation-cases (independent p q) = inl (p, q, refl)
  Commutation-cases overlap = inr refl

  -- The kernel has two outputs. Either it returns the one document that both orders of applying
  -- the two diffs give, with the two diffs as its witness; or the diffs overlap, and it returns the
  -- conflicts of the three-way merge. Combining the diffs never fails.
  pub admit_cases :
      ((result : Doc) × Merges result
        × (admit base left right ≡ merged result (witness_of base left right)))
      ⊎ ((commute (diff base left) (diff base right) ≡ overlap)
          × (admit base left right ≡ conflict (merge3 base left right).conflicts))
  admit_cases = elim (Commutation-cases (commute (diff base left) (diff base right))) [
    | inl (p, q, e) ↦ inl (admit-independent p q e)
    | inr e ↦ inr (e, admit-overlap e)
  ]

  -- A merge that the kernel emits is the document that both orders give, and carries the diffs of
  -- the two sides.
  pub admit-Merges :
      (result : Doc) (w : CommutationWitness)
      → admit base left right ≡ merged result w
      → Merges result × (w ≡ witness_of base left right)
  admit-Merges result w e = elim admit_cases [
    | inl (d, m, e') ↦
        let same : merged d (witness_of base left right) ≡ merged result w = sym e' ∙ e in
        (subst Merges (merged-injective same).0 m, sym (merged-injective same).1)
    | inr (c, e') ↦ absurd (conflict-ne-merged (sym e' ∙ e))
  ]

-- The two sides may be given in either order: the kernel merges to the same document.
pub admit_comm :
    (base left right result : Doc) (w : CommutationWitness)
    → admit base left right ≡ merged result w
    → admit base right left ≡ merged result (witness_of base right left)
admit_comm base left right result w e =
    let (m, same) = admit-Merges base left right result w e in
    let flipped : commute (diff base right) (diff base left)
        ≡ independent m.right_rebased m.left_rebased =
      commute_comm (diff base left) (diff base right) ∙ ap swap m.commuting in
    let (d, n, e') = admit-independent base right left _ _ flipped in
    e' ∙ ap (λ x. merged x (witness_of base right left)) (cc (n.commuting, flipped))
