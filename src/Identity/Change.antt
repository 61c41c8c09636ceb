-- ===== src/Identity/Change.antt =====
-- crates/omoplata-identity/src/change.rs: changes, their revisions, and the supersession edges.
-- The three hash maps are association lists; a `HashSet` of visited commits is a list.
pub mod Acyclic
pub mod WellFormed
pub mod Phases
pub mod Walks
pub mod Tips
use omoplata.Prelude.{
  ℕ, zero, suc, ◌+◌, String, Bool, true, false, ◌&&◌, Option, none, some, List, [], ◌∷◌, ◌++◌,
  Result, ok, err, ◌>>=◌, ◌>>◌, ok_or, PartialEq, ◌==◌, string_eq, Assoc, get, insert, contains,
  length, if◌then◌else◌,
}

abbrev pub ChangeId : Type 0
ChangeId = String

abbrev pub CommitId : Type 0
CommitId = String

pub data Phase : Type 0 where
  draft public : Phase

abbrev pub is_public : Phase → Bool
is_public draft = false
is_public public = true

abbrev pub is_draft : Phase → Bool
is_draft draft = true
is_draft public = false

pub record Change : Type 0 where
  pub id : ChangeId
  pub revisions : List CommitId
  pub phase : Phase

pub data IdentityError : Type 0 where
  unknown_change : String → IdentityError
  unknown_commit : String → IdentityError
  supersession_cycle : String → String → IdentityError
  public_immutable : String → IdentityError
  phase_regression : String → IdentityError
  grammar : String → IdentityError
  parse : IdentityError
  unknown_occurrence : ℕ → IdentityError

pub record ChangeGraph : Type 0 where
  pub changes : Assoc ChangeId Change
  pub commit_owner : Assoc CommitId ChangeId
  pub superseded_by : Assoc CommitId CommitId

abbrev pub new : ChangeGraph
new = record { changes = []; commit_owner = []; superseded_by = [] }

-- The loop of `add_change` over the revisions.
unfoldable pub register :
    Assoc CommitId ChangeId → ChangeId → List CommitId → Assoc CommitId ChangeId
register owners id [] = owners
register owners id (c ∷ cs) = register (insert owners c id) id cs

unfoldable pub add_change : ChangeGraph → Change → ChangeGraph
add_change g change = record g {
  commit_owner = register g.commit_owner change.id change.revisions;
  changes = insert g.changes change.id change;
}

unfoldable pub add_revision : ChangeGraph → ChangeId → CommitId → Result IdentityError ChangeGraph
add_revision g id commit = do
  change ← ok_or (get g.changes id) (unknown_change id)
  ok (record g {
    commit_owner = insert g.commit_owner commit id;
    changes = insert g.changes id (record change { revisions = change.revisions ++ commit ∷ [] });
  })

-- The loop of `reaches`; `none` means that the fuel ran out.
unfoldable pub reaches_loop :
    ℕ → Assoc CommitId CommitId → CommitId → List CommitId → CommitId → Option Bool
reaches_loop zero edges cursor seen target = none
reaches_loop (suc fuel) edges cursor seen target = elim (get edges cursor) [
  | none ↦ some false
  | some next ↦ elim (next == target) [
    | true ↦ some true
    | false ↦ elim (contains seen next) [
      | true ↦ some false
      | false ↦ reaches_loop fuel edges next (next ∷ seen) target
    ]
  ]
]

-- The visited set stops the walk within one round more than there are edges.
unfoldable pub reaches : ChangeGraph → CommitId → CommitId → Option Bool
unfolding reaches_loop
reaches g from target =
    if from == target
    then some true
    else reaches_loop (length g.superseded_by + 1) g.superseded_by from [] target

-- The phase of a change, `Draft` where there is none.
abbrev pub phase_of : Option Change → Phase
phase_of none = draft
phase_of (some c) = c.phase

-- The verdict of `reaches` refuses the edge or inserts it.
abbrev pub supersede_if :
    ChangeGraph → CommitId → CommitId → Option Bool → Result IdentityError ChangeGraph
supersede_if g old new (some false) =
    ok (record g { superseded_by = insert g.superseded_by old new })
supersede_if g old new _ = err (supersession_cycle old new)

unfoldable pub supersede : ChangeGraph → CommitId → CommitId → Result IdentityError ChangeGraph
unfolding reaches
supersede g old new = do
  owner ← ok_or (get g.commit_owner old) (unknown_commit old)
  known ← ok_or (get g.commit_owner new) (unknown_commit new)
  let verdict = supersede_if g old new (reaches g new old)
  if is_public (phase_of (get g.changes owner)) then err (public_immutable old) else verdict

-- The loop of `tip`.
unfoldable pub tip_loop : ℕ → Assoc CommitId CommitId → CommitId → List CommitId → Option CommitId
tip_loop zero edges cursor seen = none
tip_loop (suc fuel) edges cursor seen = elim (get edges cursor) [
  | none ↦ some cursor
  | some next ↦ elim (contains seen next) [
    | true ↦ some cursor
    | false ↦ tip_loop fuel edges next (next ∷ seen)
  ]
]

abbrev pub tip_from : ChangeGraph → List CommitId → Option CommitId
tip_from g [] = none
tip_from g (first ∷ rest) = tip_loop (length g.superseded_by + 2) g.superseded_by first (first ∷ [])

abbrev pub tip_of : ChangeGraph → Option Change → Option CommitId
tip_of g none = none
tip_of g (some change) = tip_from g change.revisions

unfoldable pub tip : ChangeGraph → ChangeId → Option CommitId
unfolding tip_loop
tip g id = tip_of g (get g.changes id)

unfoldable pub set_phase : ChangeGraph → ChangeId → Phase → Result IdentityError ChangeGraph
set_phase g id phase = do
  change ← ok_or (get g.changes id) (unknown_change id)
  if is_public change.phase && is_draft phase
      then err (phase_regression id)
      else ok (record g { changes = insert g.changes id (record change { phase = phase }) })
