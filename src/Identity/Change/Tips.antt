-- ===== src/Identity/Change/Tips.antt =====
-- In a graph without cycles the tip of a change is a commit that nothing supersedes.
use omoplata.Prelude.{
  ◌≡◌, ap, sym, ◌∙◌, ◌⊎◌, inl, inr, ℕ, zero, suc, ◌+◌, true, none, some, List, [], ◌∷◌, ◌==◌,
  string_eq, eq→eq, Assoc, get, contains, length, Bool-cases, Option-cases, arith,
}
use omoplata.Identity.Change.{ChangeId, CommitId, ChangeGraph, tip_loop, tip_from, tip_of, tip}
use omoplata.Identity.Change.Acyclic.{Leads, one, onward, IsAcyclic}

-- The walk has come from every commit that it has seen.
abbrev IsTrail : Assoc CommitId CommitId → List CommitId → CommitId → Type 0
IsTrail edges seen cursor =
    (s : CommitId) → contains seen s ≡ true → (s ≡ cursor) ⊎ Leads edges s cursor

Leads-snoc :
    (edges : Assoc CommitId CommitId) {c d : CommitId} (e : CommitId)
    → Leads edges c d
    → get edges d ≡ some e
    → Leads edges c e
Leads-snoc edges e (one p) h = onward p (one h)
Leads-snoc edges e (onward p l) h = onward p (Leads-snoc edges e l h)

IsTrail-step :
    (edges : Assoc CommitId CommitId) (seen : List CommitId) (cursor next : CommitId)
    → IsTrail edges seen cursor
    → get edges cursor ≡ some next
    → IsTrail edges (next ∷ seen) next
IsTrail-step edges seen cursor next trail e s h = elim (Bool-cases (next == s)) [
  | inl same ↦ inl (sym (eq→eq next s same))
  | inr other ↦ elim (trail s (ground arith)) [
    | inl here ↦ inr (one (ap (get edges) here ∙ e))
    | inr before ↦ inr (Leads-snoc edges next before e)
  ]
]

tip_loop-terminal :
    (fuel : ℕ) (edges : Assoc CommitId CommitId) (cursor last : CommitId) (seen : List CommitId)
    → ((c : CommitId) → Leads edges c c → ⊥)
    → IsTrail edges seen cursor
    → tip_loop fuel edges cursor seen ≡ some last
    → get edges last ≡ none
unfolding tip_loop
tip_loop-terminal zero edges cursor last seen acyclic trail h = absurd (cc (h))
tip_loop-terminal (suc fuel) edges cursor last seen acyclic trail h =
    elim (Option-cases (get edges cursor)) [
      | inl end ↦ ground arith
      | inr (next, e) ↦ elim (Bool-cases (contains seen next)) [
        | inl again ↦ absurd (elim (trail next again) [
          | inl here ↦ acyclic next (one (ap (get edges) here ∙ e))
          | inr before ↦ acyclic next (Leads-snoc edges next before e)
        ])
        | inr new ↦
            tip_loop-terminal fuel edges next last (next ∷ seen) acyclic
              (IsTrail-step edges seen cursor next trail e) (ground arith)
      ]
    ]

first-IsTrail :
    (edges : Assoc CommitId CommitId) (first : CommitId) → IsTrail edges (first ∷ []) first
first-IsTrail edges first s h = inl (sym (eq→eq first s (ground arith)))

-- In a graph without cycles the tip of a change is not superseded.
pub tip-terminal :
    (g : ChangeGraph) (id : ChangeId) (last : CommitId)
    → IsAcyclic g
    → tip g id ≡ some last
    → get g.superseded_by last ≡ none
unfolding tip
tip-terminal g id last acyclic h = elim (Option-cases (get g.changes id)) [
  | inl missing ↦ absurd (cc (sym (ap (tip_of g) missing) ∙ h))
  | inr (change, e) ↦ from_first change.revisions (sym (ap (tip_of g) e) ∙ h)
]
  where
    from_first :
        (revisions : List CommitId)
        → tip_from g revisions ≡ some last
        → get g.superseded_by last ≡ none
    from_first [] h = absurd (cc (h))
    from_first (first ∷ rest) h =
        tip_loop-terminal (length g.superseded_by + 2) g.superseded_by first last (first ∷ [])
          acyclic (first-IsTrail g.superseded_by first) h
