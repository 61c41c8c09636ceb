-- ===== src/Identity/Change/WellFormed.antt =====
-- Every change graph that the operations build is well formed: invariant I6 of the design.
use mathlib.Core.Path.{subst}
use omoplata.Prelude.{
  ◌≡◌, inl, inr, sym, ap, ◌∙◌, some, List, [], ◌∷◌, ok, ◌==◌, string_eq, eq→eq, Assoc, get, insert,
  get-insert, Bool-cases, arith,
}
use omoplata.Identity.Change.{
  ChangeId, CommitId, Phase, Change, ChangeGraph, new, register, add_change, add_revision,
  supersede, set_phase,
}
use omoplata.Identity.Change.Acyclic.{
  Leads, one, onward, IsAcyclic, insert_here, insert_elsewhere, supersede-IsAcyclic,
}

abbrev pub IsOwned : Assoc CommitId ChangeId → CommitId → Type 0
IsOwned owners c = (owner : ChangeId) × (get owners c ≡ some owner)

-- The supersession edges have no cycle, and both ends of each are revisions of some change.
pub record IsWellFormed (g : ChangeGraph) : Type 0 where
  pub acyclic : IsAcyclic g
  pub no_orphans :
      (c d : CommitId)
      → get g.superseded_by c ≡ some d
      → IsOwned g.commit_owner c × IsOwned g.commit_owner d

insert-IsOwned :
    (owners : Assoc CommitId ChangeId) (k : CommitId) (id : ChangeId) (c : CommitId)
    → IsOwned owners c
    → IsOwned (insert owners k id) c
insert-IsOwned owners k id c (o, e) = elim (Bool-cases (k == c)) [
  | inl same ↦ (id, ground (arith, get-insert owners k c id))
  | inr other ↦ (o, ground (arith, get-insert owners k c id))
]

register-IsOwned :
    (owners : Assoc CommitId ChangeId) (id : ChangeId) (cs : List CommitId) (c : CommitId)
    → IsOwned owners c
    → IsOwned (register owners id cs) c
unfolding register
register-IsOwned owners id [] c h = h
register-IsOwned owners id (k ∷ cs) c h =
    register-IsOwned (insert owners k id) id cs c (insert-IsOwned owners k id c h)

pub new-IsWellFormed : IsWellFormed new
unfolding get
new-IsWellFormed = record { acyclic = no_path; no_orphans = λ c d e. absurd (cc (e)) }
  where
    no_path : (c : CommitId) → Leads [] c c → ⊥
    no_path c (one e) = cc
    no_path c (onward e p) = cc

pub add_change-IsWellFormed :
    (g : ChangeGraph) (change : Change) → IsWellFormed g → IsWellFormed (add_change g change)
unfolding add_change
add_change-IsWellFormed g change w = record {
  acyclic = w.acyclic;
  no_orphans = λ c d e.
      let (from, to) = w.no_orphans c d e in
      (
        register-IsOwned g.commit_owner change.id change.revisions c from,
        register-IsOwned g.commit_owner change.id change.revisions d to,
      );
}

-- What an operation leaves of the edges and adds to the owners.
keeps_edges :
    (g g' : ChangeGraph)
    → g'.superseded_by ≡ g.superseded_by
    → ((c : CommitId) → IsOwned g.commit_owner c → IsOwned g'.commit_owner c)
    → IsWellFormed g
    → IsWellFormed g'
keeps_edges g g' edges owned w = record {
  acyclic = λ c p. w.acyclic c (subst (λ es. Leads es c c) edges p);
  no_orphans = λ c d e.
      let (from, to) = w.no_orphans c d (ap (λ es. get es c) (sym edges) ∙ e) in
      (owned c from, owned d to);
}

add_revision_parts :
    (g g' : ChangeGraph) (id : ChangeId) (commit : CommitId)
    → add_revision g id commit ≡ ok g'
    → (g'.superseded_by ≡ g.superseded_by) × (g'.commit_owner ≡ insert g.commit_owner commit id)
unfolding add_revision
add_revision_parts g g' id commit e = ground arith

pub add_revision-IsWellFormed :
    (g g' : ChangeGraph) (id : ChangeId) (commit : CommitId)
    → IsWellFormed g
    → add_revision g id commit ≡ ok g'
    → IsWellFormed g'
add_revision-IsWellFormed g g' id commit w e =
    let (edges, owners) = add_revision_parts g g' id commit e in
    keeps_edges g g' edges
      (λ c h. subst (λ os. IsOwned os c) (sym owners) (insert-IsOwned g.commit_owner commit id c h))
      w

pub supersede_ends :
    (g g' : ChangeGraph) (old new : CommitId)
    → supersede g old new ≡ ok g'
    → (g'.superseded_by ≡ insert g.superseded_by old new)
      × (g'.commit_owner ≡ g.commit_owner)
      × IsOwned g.commit_owner old
      × IsOwned g.commit_owner new
unfolding supersede
supersede_ends g g' old new e = ground arith

set_phase_parts :
    (g g' : ChangeGraph) (id : ChangeId) (phase : Phase)
    → set_phase g id phase ≡ ok g'
    → (g'.superseded_by ≡ g.superseded_by) × (g'.commit_owner ≡ g.commit_owner)
unfolding set_phase
set_phase_parts g g' id phase e = ground arith

set_phase-IsWellFormed :
    (g g' : ChangeGraph) (id : ChangeId) (phase : Phase)
    → IsWellFormed g
    → set_phase g id phase ≡ ok g'
    → IsWellFormed g'
set_phase-IsWellFormed g g' id phase w e =
    let (edges, owners) = set_phase_parts g g' id phase e in
    keeps_edges g g' edges (λ c h. subst (λ os. IsOwned os c) (sym owners) h) w

module _ (g g' : ChangeGraph) (old new : CommitId) (w : IsWellFormed g)
    (e : supersede g old new ≡ ok g') where
  supersede_edges :
      (c d : CommitId)
      → get g'.superseded_by c ≡ some d
      → IsOwned g.commit_owner c × IsOwned g.commit_owner d
  supersede_edges c d at =
      let (edges, owners, from, to) = supersede_ends g g' old new e in
      let at' : get (insert g.superseded_by old new) c ≡ some d =
        ap (λ es. get es c) (sym edges) ∙ at in
      elim (Bool-cases (old == c)) [
        | inl same ↦ (
          subst (IsOwned g.commit_owner) (eq→eq old c same) from,
          subst (IsOwned g.commit_owner) (insert_here g.superseded_by old new c d at' same) to,
        )
        | inr other ↦ w.no_orphans c d (insert_elsewhere g.superseded_by old new c d at' other)
      ]

  pub supersede-IsWellFormed : IsWellFormed g'
  supersede-IsWellFormed = record {
    acyclic = supersede-IsAcyclic g g' old new w.acyclic e;
    no_orphans = λ c d at.
        let (from, to) = supersede_edges c d at in
        let owners = sym (supersede_ends g g' old new e).1 in
        (subst (λ os. IsOwned os c) owners from, subst (λ os. IsOwned os d) owners to);
  }

-- One call on a change or on commits that succeeds.
pub data Amends (g g' : ChangeGraph) : Type 0 where
  adds_revision :
      (id : ChangeId) (commit : CommitId) → add_revision g id commit ≡ ok g' → Amends g g'
  supersedes : (old new : CommitId) → supersede g old new ≡ ok g' → Amends g g'
  sets_phase : (id : ChangeId) (phase : Phase) → set_phase g id phase ≡ ok g' → Amends g g'

-- The graphs that successful calls build from the empty one.
pub data IsReachable : ChangeGraph → Type 0 where
  empty : IsReachable new
  adds_change :
      {g : ChangeGraph} (change : Change) → IsReachable g → IsReachable (add_change g change)
  amends : {g g' : ChangeGraph} → IsReachable g → Amends g g' → IsReachable g'

Amends-IsWellFormed : (g g' : ChangeGraph) → IsWellFormed g → Amends g g' → IsWellFormed g'
Amends-IsWellFormed g g' w (adds_revision id commit e) =
    add_revision-IsWellFormed g g' id commit w e
Amends-IsWellFormed g g' w (supersedes old new e) = supersede-IsWellFormed g g' old new w e
Amends-IsWellFormed g g' w (sets_phase id phase e) = set_phase-IsWellFormed g g' id phase w e

-- In every graph that calls of the operations build from the empty one, the supersession edges
-- have no cycle, and both ends of each edge are registered revisions.
pub IsReachable-IsWellFormed : {g : ChangeGraph} → IsReachable g → IsWellFormed g
IsReachable-IsWellFormed empty = new-IsWellFormed
IsReachable-IsWellFormed (adds_change {g} change r) =
    add_change-IsWellFormed g change (IsReachable-IsWellFormed r)
IsReachable-IsWellFormed (amends {g} {g'} r s) =
    Amends-IsWellFormed g g' (IsReachable-IsWellFormed r) s
