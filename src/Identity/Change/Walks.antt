-- ===== src/Identity/Change/Walks.antt =====
-- The walks along the supersession edges end.
use omoplata.Prelude.{
  ◌≡◌, ap, ◌∙◌, inl, inr, ℕ, zero, suc, ◌+◌, ◌<◌, ◌≤◌, Bool, true, false, some, List, [], ◌∷◌, ◌==◌,
  string_eq, eq_self, Assoc, get, contains, length, Bool-cases, Option-cases, arith, if◌then◌else◌,
}
use omoplata.Identity.Change.{
  ChangeId, CommitId, Change, ChangeGraph, reaches_loop, reaches, tip_loop, tip_from, tip_of, tip,
}

-- How many edges lead to a commit that has not been seen.
unfoldable unseen : Assoc CommitId CommitId → List CommitId → ℕ
unseen [] seen = 0
unseen ((c, d) ∷ edges) seen = (if contains seen d then 0 else 1) + unseen edges seen

unseen-le :
    (edges : Assoc CommitId CommitId) (seen : List CommitId) → unseen edges seen ≤ length edges
unfolding unseen
unseen-le [] seen = omega arith
unseen-le ((c, d) ∷ edges) seen = ground (arith, unseen-le edges seen)

unseen-cons :
    (edges : Assoc CommitId CommitId) (x : CommitId) (seen : List CommitId)
    → unseen edges (x ∷ seen) ≤ unseen edges seen
unfolding unseen
unseen-cons [] x seen = omega arith
unseen-cons ((c, d) ∷ edges) x seen = ground (arith, unseen-cons edges x seen)

unseen-drops :
    (edges : Assoc CommitId CommitId) (c x : CommitId) (seen : List CommitId)
    → get edges c ≡ some x
    → contains seen x ≡ false
    → unseen edges (x ∷ seen) < unseen edges seen
unfolding unseen get
unseen-drops [] c x seen e new = absurd (cc (e))
unseen-drops ((b, d) ∷ edges) c x seen e new = elim (Bool-cases (b == c)) [
  | inl same ↦ ground (arith, unseen-cons edges x seen, eq_self x)
  | inr other ↦ ground (arith, unseen-drops edges c x seen)
]

reaches_loop-ends :
    (fuel : ℕ) (edges : Assoc CommitId CommitId) (cursor : CommitId) (seen : List CommitId)
    (target : CommitId)
    → unseen edges seen < fuel
    → (found : Bool) × (reaches_loop fuel edges cursor seen target ≡ some found)
unfolding reaches_loop
reaches_loop-ends zero edges cursor seen target h = absurd (omega arith)
reaches_loop-ends (suc fuel) edges cursor seen target h = elim (Option-cases (get edges cursor)) [
  | inl end ↦ (false, ground arith)
  | inr (next, e) ↦ elim (Bool-cases (next == target)) [
    | inl hit ↦ (true, ground arith)
    | inr miss ↦ elim (Bool-cases (contains seen next)) [
      | inl again ↦ (false, ground arith)
      | inr new ↦
          let drop = unseen-drops edges cursor next seen e new in
          let (found, rest) =
            reaches_loop-ends fuel edges next (next ∷ seen) target (omega arith) in
          (found, ground arith)
    ]
  ]
]

-- The search along the supersession edges ends with a verdict, in every graph, with cycles or not.
pub reaches-ends :
    (g : ChangeGraph) (from target : CommitId)
    → (found : Bool) × (reaches g from target ≡ some found)
unfolding reaches
reaches-ends g from target =
    let few = unseen-le g.superseded_by [] in
    let (found, walk) =
      reaches_loop-ends (length g.superseded_by + 1) g.superseded_by from [] target (omega arith) in
    elim (Bool-cases (from == target)) [
      | inl same ↦ (true, ground arith)
      | inr other ↦ (found, ground arith)
    ]

tip_loop-ends :
    (fuel : ℕ) (edges : Assoc CommitId CommitId) (cursor : CommitId) (seen : List CommitId)
    → unseen edges seen < fuel
    → (last : CommitId) × (tip_loop fuel edges cursor seen ≡ some last)
unfolding tip_loop
tip_loop-ends zero edges cursor seen h = absurd (omega arith)
tip_loop-ends (suc fuel) edges cursor seen h = elim (Option-cases (get edges cursor)) [
  | inl end ↦ (cursor, ground arith)
  | inr (next, e) ↦ elim (Bool-cases (contains seen next)) [
    | inl again ↦ (cursor, ground arith)
    | inr new ↦
        let drop = unseen-drops edges cursor next seen e new in
        let (last, rest) = tip_loop-ends fuel edges next (next ∷ seen) (omega arith) in
        (last, ground arith)
  ]
]

-- A change that the graph knows and that has a revision has a tip.
pub tip-ends :
    (g : ChangeGraph) (id : ChangeId) (change : Change) (first : CommitId) (rest : List CommitId)
    → get g.changes id ≡ some change
    → change.revisions ≡ first ∷ rest
    → (last : CommitId) × (tip g id ≡ some last)
unfolding tip
tip-ends g id change first rest e revisions =
    let few = unseen-le g.superseded_by (first ∷ []) in
    let (last, walk) =
      tip_loop-ends (length g.superseded_by + 2) g.superseded_by first (first ∷ []) (omega arith) in
    (last, ap (tip_of g) e ∙ ap (tip_from g) revisions ∙ walk)
