-- ===== src/Algebra/Kernel/Witness.antt =====
-- What the two gates check: `verify_witness` and `certify`.
use omoplata.Prelude.{
  ◌≡◌, ◌⊎◌, inl, inr, refl, Bool-cases, ◌↔◌, ◌≢◌, sym, ap, ◌∙◌, Bool, true, false, not, ◌||◌, List,
  [], ◌∷◌, Result, ok, err, ◌==◌, eq→eq, eq_self, eq-false_of_ne, arith, if◌then◌else◌,
}
use omoplata.Algebra.Doc.{Doc, doc_eq}
use omoplata.Algebra.Patch.{Patch, ApplyError, apply, diff}
use omoplata.Algebra.Patch.Diff.{apply-diff}
use omoplata.Algebra.Patch.Equality.{patch_eq}
use omoplata.Algebra.Commute.{Commutation, independent, overlap, commute, combine}
use omoplata.Algebra.Merge.{Conflict, merge3}
use omoplata.Algebra.Kernel.{
  CommutationWitness, Admission, merged, conflict, admit, reproduces, verify_witness, certify,
}
use omoplata.Algebra.Kernel.Admitted.{Merges, admit_cases, witness_of, merged-injective}

module _ (w : CommutationWitness) (cs : List Conflict) (result : Doc) where
  same_outcome :
      (r : Result ApplyError Doc)
      → (elim r as (λ _. Bool) [ ok d ↦ d == result | err e ↦ false ] ≡ true)
        ↔ (elim r as (λ _. Admission) [ ok d ↦ merged d w | err e ↦ conflict cs ] ≡ merged result w)
  same_outcome (ok d) = (
    λ h. ap (λ x. merged x w) (eq→eq d result h),
    λ h. rw (merged-injective h).0 (eq_self result),
  )
  same_outcome (err e) = (λ h. cc, λ h. cc)

  same_verdict :
      (c : Commutation) (f : Patch → Result ApplyError Doc)
      → (elim c as (λ _. Bool) [
        | independent p q ↦ elim (f q) [ ok d ↦ d == result | err e ↦ false ]
        | overlap ↦ false
      ]
          ≡ true)
        ↔ (elim c as (λ _. Admission) [
          | independent p q ↦ elim (f q) [ ok d ↦ merged d w | err e ↦ conflict cs ]
          | overlap ↦ conflict cs
        ]
            ≡ merged result w)
  same_verdict (independent p q) f = same_outcome (f q)
  same_verdict overlap f = (λ h. cc, λ h. cc)

-- On the diffs of the two sides, reproducing a result is what admitting it is.
reproduces_iff :
    (base left right result : Doc)
    → (reproduces base (witness_of base left right) result ≡ true)
      ↔ (admit base left right ≡ merged result (witness_of base left right))
unfolding reproduces admit
reproduces_iff base left right result =
    same_verdict (witness_of base left right) (merge3 base left right).conflicts result
      (commute (diff base left) (diff base right)) (combine base (diff base left))

verify-diffs :
    (base left right result : Doc)
    → verify_witness base (witness_of base left right) result
      ≡ reproduces base (witness_of base left right) result
unfolding verify_witness
verify-diffs base left right result = rw (
  apply-diff base left,
  verify_witness,
  apply-diff base right,
  eq_self (diff base left),
  eq_self (diff base right),
)

module _ (base : Doc) (w : CommutationWitness) (result : Doc) where
  verify-sides :
      verify_witness base w result ≡ true
      → (left : Doc) × (right : Doc) × (w ≡ witness_of base left right)
  unfolding verify_witness
  verify-sides e = sides (apply w.p base) (apply w.q base) e
    where
      sides :
          (r s : Result ApplyError Doc)
          → elim r as (λ _. Bool) [
            | err e ↦ false
            | ok left ↦ elim s [
              | err e ↦ false
              | ok right ↦
                  if not (diff base left == w.p) || not (diff base right == w.q)
                  then false
                  else reproduces base w result
            ]
          ]
            ≡ true
          → (left : Doc) × (right : Doc) × (w ≡ witness_of base left right)
      sides (ok left) (ok right) h =
          (left, right, ground (arith, eq→eq (diff base left) w.p, eq→eq (diff base right) w.q))
      sides (ok left) (err e) h = cc
      sides (err e) s h = cc

-- A result passes the check with a witness exactly where the witness is the diffs of two sides that
-- the kernel itself merges to that result.
pub verify_witness_iff :
    (base : Doc) (w : CommutationWitness) (result : Doc)
    → (verify_witness base w result ≡ true) ↔ (
        (left : Doc) × (right : Doc) × (w ≡ witness_of base left right)
        × (admit base left right ≡ merged result w))
verify_witness_iff base w result = (
  λ h.
      let (left, right, e) = verify-sides base w result h in
      let h' : verify_witness base (witness_of base left right) result ≡ true =
        ap (λ x. verify_witness base x result) (sym e) ∙ h in
      (
        left,
        right,
        e,
        (reproduces_iff base left right result).0 (sym (verify-diffs base left right result) ∙ h')
            ∙ ap (λ x. merged result x) (sym e),
      ),
  λ (left, right, e, admitted).
      ap (λ x. verify_witness base x result) e
      ∙ verify-diffs base left right result
      ∙ (reproduces_iff base left right result).1 (admitted ∙ ap (λ x. merged result x) e),
)

-- The gate admits a proposal exactly where the kernel merges to that very document.
pub certify-merged_iff :
    (base left right proposed result : Doc) (w : CommutationWitness)
    → (certify base left right proposed ≡ merged result w)
      ↔ ((admit base left right ≡ merged result w) × (result ≡ proposed))
unfolding certify
certify-merged_iff base left right proposed result w = gate_step (admit base left right)
  where
    gate_step :
        (a : Admission)
        → (elim a as (λ _. Admission) [
          | merged d v ↦
              if d == proposed
              then merged d v
              else conflict
                  (record { base = base.lines; left = d.lines; right = proposed.lines } ∷ [])
          | conflict cs ↦ conflict cs
        ]
            ≡ merged result w)
          ↔ ((a ≡ merged result w) × (result ≡ proposed))
    gate_step (merged d v) = (
      λ h. ground (arith, eq→eq d proposed),
      λ h. rw ((doc_eq.eq_iff d proposed).1 ((merged-injective h.0).0 ∙ h.1)) h.0,
    )
    gate_step (conflict cs) = (λ h. cc, λ h. cc (h.0))

-- A proposal other than the merge of the kernel.
certify_downgrades :
    (base left right proposed result : Doc) (w : CommutationWitness)
    → admit base left right ≡ merged result w
    → result ≢ proposed
    → certify base left right proposed
      ≡ conflict (record { base = base.lines; left = result.lines; right = proposed.lines } ∷ [])
unfolding certify
certify_downgrades base left right proposed result w e other =
    rw (e, certify, eq-false_of_ne result proposed other)

certify-overlap :
    (base left right proposed : Doc) (cs : List Conflict)
    → admit base left right ≡ conflict cs
    → certify base left right proposed ≡ conflict cs
unfolding certify
certify-overlap base left right proposed cs e = rw (e, certify) refl

-- The gate on a proposal, whatever it is: where the two sides commute, both orders of them give one
-- result, and the gate admits the proposal with their diffs if it is that result, and otherwise turns it
-- into one conflict that records the base, the result and the proposal; where they overlap, the
-- conflicts are those of the three-way merge.
pub certify_cases :
    (base left right proposed : Doc)
    → ((result : Doc) × Merges base left right result
        × (((result ≡ proposed)
              × (certify base left right proposed ≡ merged proposed (witness_of base left right)))
            ⊎ ((result ≢ proposed)
                × (certify base left right proposed
                    ≡ conflict (
                        record { base = base.lines; left = result.lines; right = proposed.lines }
                        ∷ [])))))
      ⊎ ((commute (diff base left) (diff base right) ≡ overlap)
          × (certify base left right proposed ≡ conflict (merge3 base left right).conflicts))
certify_cases base left right proposed = elim (admit_cases base left right) [
  | inl (result, merges, admitted) ↦ elim (Bool-cases (result == proposed)) [
    | inl same ↦
        let one = eq→eq result proposed same in
        inl (
          result,
          merges,
          inl (
            one,
            (certify-merged_iff base left right proposed proposed (witness_of base left right)).1
                (admitted ∙ ap (λ d. merged d (witness_of base left right)) one, refl),
          ),
        )
    | inr differ ↦
        let other : result ≢ proposed =
          λ one. cc (sym differ ∙ (doc_eq.eq_iff result proposed).1 one) in
        inl (
          result,
          merges,
          inr (
            other,
            certify_downgrades base left right proposed result (witness_of base left right) admitted
                other,
          ),
        )
  ]
  | inr (apart, admitted) ↦
      inr (
        apart,
        certify-overlap base left right proposed (merge3 base left right).conflicts admitted,
      )
]
