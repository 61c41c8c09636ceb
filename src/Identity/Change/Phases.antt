-- ===== src/Identity/Change/Phases.antt =====
-- Phases only advance, and the commits of a public change are not superseded.
use omoplata.Prelude.{
  ◌≡◌, inl, inr, ap, ◌∙◌, true, false, ◌&&◌, some, [], ◌∷◌, ◌++◌, ok, err, ◌==◌, string_eq, eq→eq,
  Assoc, get, insert, get-insert, Bool-cases, arith,
}
use omoplata.Identity.Change.WellFormed.{Amends, adds_revision, supersedes, sets_phase}
use omoplata.Identity.Change.{
  ChangeId, CommitId, Phase, public, is_public, is_draft, Change, ChangeGraph, new,
  public_immutable, add_revision, supersede, set_phase,
}

-- The change is in the graph and is public.
abbrev pub IsPublic : ChangeGraph → ChangeId → Type 0
IsPublic g id = (c : Change) × (get g.changes id ≡ some c) × (c.phase ≡ public)

set_phase_written :
    (g g' : ChangeGraph) (j : ChangeId) (phase : Phase)
    → set_phase g j phase ≡ ok g'
    → (c : Change) × (get g.changes j ≡ some c)
      × (g'.changes ≡ insert g.changes j (record c { phase = phase }))
      × ((is_public c.phase && is_draft phase) ≡ false)
unfolding set_phase
set_phase_written g g' j phase e = ground arith

stays_public : (p q : Phase) → (is_public p && is_draft q) ≡ false → p ≡ public → q ≡ public
stays_public p q h e = ground arith

insert-IsPublic :
    (changes : Assoc ChangeId Change) (id j : ChangeId) (c d : Change)
    → get changes id ≡ some c
    → c.phase ≡ public
    → ((j == id) ≡ true → d.phase ≡ public)
    → (b : Change) × (get (insert changes j d) id ≡ some b) × (b.phase ≡ public)
insert-IsPublic changes id j c d at p h = elim (Bool-cases (j == id)) [
  | inl same ↦ (d, ground (arith, get-insert changes j id d), h same)
  | inr other ↦ (c, ground (arith, get-insert changes j id d), p)
]

module _ (g g' : ChangeGraph) (id : ChangeId) where
  in_changes :
      {changes : Assoc ChangeId Change}
      → g'.changes ≡ changes
      → (b : Change) × (get changes id ≡ some b) × (b.phase ≡ public)
      → IsPublic g' id
  in_changes e (b, at, p) = (b, ap (λ cs. get cs id) e ∙ at, p)

  set_phase-IsPublic :
      (j : ChangeId) (phase : Phase) → set_phase g j phase ≡ ok g' → IsPublic g id → IsPublic g' id
  set_phase-IsPublic j phase e (c, at, p) =
      let (d, at_j, written, kept) = set_phase_written g g' j phase e in
      in_changes written (
        insert-IsPublic g.changes id j c (record d { phase = phase }) at p
          (λ same. stays_public d.phase phase kept (cc (eq→eq j id same, at, at_j, p))))

  add_revision_written :
      (j : ChangeId) (commit : CommitId)
      → add_revision g j commit ≡ ok g'
      → (d : Change) × (get g.changes j ≡ some d)
        × (g'.changes ≡ insert g.changes j (record d { revisions = d.revisions ++ commit ∷ [] }))
  unfolding add_revision
  add_revision_written j commit e = ground arith

  add_revision-IsPublic :
      (j : ChangeId) (commit : CommitId)
      → add_revision g j commit ≡ ok g'
      → IsPublic g id
      → IsPublic g' id
  add_revision-IsPublic j commit e (c, at, p) =
      let (d, at_j, written) = add_revision_written j commit e in
      in_changes written (
        insert-IsPublic g.changes id j c (record d { revisions = d.revisions ++ commit ∷ [] }) at p
          (λ same. cc (eq→eq j id same, at, at_j, p)))

  supersede_changes : (old new : CommitId) → supersede g old new ≡ ok g' → g'.changes ≡ g.changes
  unfolding supersede
  supersede_changes old new e = ground arith

  -- A call on a change or a commit that succeeds leaves every public change public. (Inserting a
  -- whole change may replace one.)
  pub Amends-IsPublic : Amends g g' → IsPublic g id → IsPublic g' id
  Amends-IsPublic (adds_revision j commit e) h = add_revision-IsPublic j commit e h
  Amends-IsPublic (supersedes old new e) (c, at, p) =
      in_changes (supersede_changes old new e) (c, at, p)
  Amends-IsPublic (sets_phase j phase e) h = set_phase-IsPublic j phase e h

-- A commit of a public change is not superseded: the call is refused, whatever registered
-- commit the new one is.
pub supersede-public :
    (g : ChangeGraph) (old new : CommitId) (owner newer : ChangeId)
    → get g.commit_owner old ≡ some owner
    → get g.commit_owner new ≡ some newer
    → IsPublic g owner
    → supersede g old new ≡ err (public_immutable old)
unfolding supersede
supersede-public g old new owner newer e f (c, at, p) = ground arith
