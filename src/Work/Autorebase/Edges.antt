-- ===== src/Work/Autorebase/Edges.antt =====
-- The supersession edge that a rebase records, and the graph that it leaves.
use omoplata.Prelude.{
  ◌≡◌, ◌≢◌, ◌⊎◌, refl, ap, ◌∙◌, inl, inr, not, none, some, [], ◌∷◌, ◌++◌, Assoc, get, insert,
  get-insert_self, contains, ◌==◌, string_eq, eq→eq, eq_self, Result, ok, err, Result-cases,
  Bool-cases, Option-cases, if◌then◌else◌,
}
use omoplata.Identity.Change.{
  ChangeId, CommitId, draft, Change, IdentityError, ChangeGraph, add_change, add_revision,
  supersede,
}
use omoplata.Identity.Change.WellFormed.{
  IsWellFormed, add_change-IsWellFormed, add_revision-IsWellFormed, supersede-IsWellFormed,
  supersede_ends,
}
use omoplata.Work.Error.{WorkError}
use omoplata.Work.Autorebase.{ensure_revision, attempt, record_edge}

first_revision :
    (g : ChangeGraph) (change : ChangeId) (commit : CommitId)
    → get g.changes change ≡ none
    → ensure_revision g change commit
      ≡ ok (add_change g (record { id = change; revisions = commit ∷ []; phase = draft }))
unfolding ensure_revision
first_revision g change commit h = rw (ensure_revision, h) refl

later_revision :
    (g : ChangeGraph) (change : ChangeId) (commit : CommitId) (c : Change)
    → get g.changes change ≡ some c
    → ensure_revision g change commit
      ≡ (if not (contains c.revisions commit) then add_revision g change commit else ok g)
unfolding ensure_revision
later_revision g change commit c h = rw (ensure_revision, h) refl

add_revision-known :
    (g : ChangeGraph) (change : ChangeId) (commit : CommitId) (c : Change)
    → get g.changes change ≡ some c
    → (g' : ChangeGraph) × (add_revision g change commit ≡ ok g')
unfolding add_revision
add_revision-known g change commit c h = (
  record g {
    commit_owner = insert g.commit_owner commit change;
    changes = insert g.changes change (record c { revisions = c.revisions ++ commit ∷ [] });
  },
  rw (h) refl,
)

-- Registering a revision does not fail, and keeps a graph well-formed.
ensure_revision-IsWellFormed :
    (g : ChangeGraph) (change : ChangeId) (commit : CommitId)
    → IsWellFormed g
    → (g' : ChangeGraph) × (ensure_revision g change commit ≡ ok g') × IsWellFormed g'
ensure_revision-IsWellFormed g change commit w = elim (Option-cases (get g.changes change)) [
  | inl unknown ↦ (_, first_revision g change commit unknown, add_change-IsWellFormed g _ w)
  | inr (c, known) ↦
      let step = later_revision g change commit c known in
      elim (Bool-cases (contains c.revisions commit)) [
        | inl there ↦ (g, step ∙ rw (there) refl, w)
        | inr missing ↦
            let (g', added) = add_revision-known g change commit c known in
            (g', step ∙ rw (missing) added, add_revision-IsWellFormed g g' change commit w added)
      ]
]

-- What recording an edge leaves: the edge, or no edge where the tip is the old one, or the refusal of
-- the graph.
abbrev pub Recorded : ChangeGraph → CommitId → CommitId → Result WorkError (Unit {0}) → Type 0
Recorded g old_tip new_tip (ok done) =
    (new_tip ≡ old_tip) ⊎ (get g.superseded_by old_tip ≡ some new_tip)
Recorded g old_tip new_tip (err e) =
    (new_tip ≢ old_tip) × ((i : IdentityError) × (e ≡ WorkError.identity i))

edge_tail :
    (g : ChangeGraph) (old_tip new_tip : CommitId)
    → IsWellFormed g
    → new_tip ≢ old_tip
    → (g' : ChangeGraph) × (r : Result WorkError (Unit {0})) × (attempt g
          (supersede g old_tip new_tip)
          (λ g3. (g3, ok tt))
        ≡ (g', r))
      × IsWellFormed g'
      × Recorded g' old_tip new_tip r
edge_tail g old_tip new_tip w other = elim (Result-cases (supersede g old_tip new_tip)) [
  | inl (e, refused) ↦ (g, err (WorkError.identity e), rw (refused) refl, w, (other, (e, refl)))
  | inr (g', went) ↦
      let edges = (supersede_ends g g' old_tip new_tip went).0 in
      (
        g',
        ok tt,
        rw (went) refl,
        supersede-IsWellFormed g g' old_tip new_tip w went,
        inr (
            ap (λ (es : Assoc CommitId CommitId). get es old_tip) edges
            ∙ get-insert_self g.superseded_by old_tip new_tip),
      )
]

pub record_edge_lem :
    (g : ChangeGraph) (change : ChangeId) (old_tip new_tip : CommitId)
    → IsWellFormed g
    → (g' : ChangeGraph) × (r : Result WorkError (Unit {0})) × (record_edge g change old_tip new_tip
        ≡ (g', r))
      × IsWellFormed g'
      × Recorded g' old_tip new_tip r
unfolding record_edge
record_edge_lem g change old_tip new_tip w =
    let (g1, first, w1) = ensure_revision-IsWellFormed g change old_tip w in
    elim (Bool-cases (new_tip == old_tip)) [
      | inl same ↦ (g1, ok tt, rw (first, same) refl, w1, inl (eq→eq new_tip old_tip same))
      | inr other ↦
          let (g2, second, w2) = ensure_revision-IsWellFormed g1 change new_tip w1 in
          let apart : new_tip ≢ old_tip =
            λ same. cc (other, eq_self old_tip, ap (λ (t : CommitId). t == old_tip) same) in
          let (g', r, went, w', recorded) = edge_tail g2 old_tip new_tip w2 apart in
          (g', r, rw (first, other, second) went, w', recorded)
    ]
