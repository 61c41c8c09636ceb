-- ===== src/Algebra/Commute/Sound.antt =====
-- What the verdict of `commute` promises.
use mathlib.Core.Path.{fun_ext, subst}
use omoplata.Prelude.{◌≡◌, refl, ap, ◌∙◌, true, List, ok, map, arith}
use omoplata.Prelude.Int.{pos, ◌+ℤ◌, eq_of_parts, int_laws}
use omoplata.Algebra.Doc.{Doc}
use omoplata.Algebra.Patch.{Hunk, Patch, apply, delta_sum}
use omoplata.Algebra.Patch.Applies.{Applies, apply-Applies, Applies-apply}
use omoplata.Algebra.Commute.{Commutation, independent, overlap, move, disjoint, rebase, commute}
use omoplata.Algebra.Commute.Conflicts.{disjoint_comm}
use omoplata.Algebra.Commute.Diamond.{diamond}

zero_shift : (hs : List Hunk) → (λ s. pos 0 +ℤ delta_sum hs s) ≡ delta_sum hs
zero_shift hs = fun_ext λ s. eq_of_parts _ _ (omega int_laws)

-- The verdict with the two patches in the other order.
abbrev pub swap : Commutation → Commutation
swap (independent p q) = independent q p
swap overlap = overlap

-- The verdict on (q, p) is the verdict on (p, q), with the two rebased patches exchanged.
pub commute_comm : (p q : Patch) → commute q p ≡ swap (commute p q)
unfolding commute
commute_comm p q = rw (disjoint_comm q.hunks p.hunks) (ground arith)

commute-independent :
    (p q p' q' : Patch)
    → commute p q ≡ independent p' q'
    → (disjoint p.hunks q.hunks ≡ true) × (p' ≡ rebase p q) × (q' ≡ rebase q p)
unfolding commute
commute-independent p q p' q' e = ground arith

-- Where two patches apply to a base and the check finds them independent, each rebased patch
-- applies to what the other left, and both orders end in one and the same document.
pub commute_sound :
    (p q p' q' : Patch) (base after_p after_q : Doc)
    → apply p base ≡ ok after_p
    → apply q base ≡ ok after_q
    → commute p q ≡ independent p' q'
    → (merged : Doc) × (apply q' after_p ≡ ok merged) × (apply p' after_q ≡ ok merged)
unfolding rebase
commute_sound p q p' q' base after_p after_q on_p on_q verdict =
    let (apart, eq_p, eq_q) = commute-independent p q p' q' verdict in
    let (w, a, b) =
      diamond p.hunks q.hunks 0 0 0 (pos 0) (pos 0) apart refl refl
        (apply-Applies p base after_p on_p) (apply-Applies q base after_q on_q) in
    let merged : Doc = record { lines = w } in
    (
      merged,
      ap (λ x. apply x after_p) eq_q
          ∙ Applies-apply (rebase q p) after_p merged (
              subst (λ f. Applies (map (move f) q.hunks) 0 after_p.lines w) (zero_shift p.hunks) a),
      ap (λ x. apply x after_q) eq_p
          ∙ Applies-apply (rebase p q) after_q merged (
              subst (λ f. Applies (map (move f) p.hunks) 0 after_q.lines w) (zero_shift q.hunks) b),
    )
