-- ===== src/Work/Autorebase.antt =====
-- crates/omoplata-work/src/autorebase.rs: the engine that replays a change on a new base, and records
-- the move in the operation log and in the change graph. The hash of the store is a parameter. A
-- method returns the engine that it leaves along with its result, since it can fail half way.
pub mod Contents
pub mod Edges
pub mod Recorded
pub mod Axes
pub mod Stacked
use omoplata.Prelude.{
  ℕ, String, Bool, true, false, not, Option, none, some, List, [], ◌∷◌, ◌++◌, length, empty, ◌==◌,
  string_eq, Assoc, get, contains, Result, ok, err, ◌>>=◌, ok_or, if◌then◌else◌,
}
use Prim.Native.String.{◌++◌ as ◌<>◌}
use omoplata.Algebra.Doc.{Doc, from_str, to_string}
use omoplata.Algebra.Merge.{Conflict}
use omoplata.Algebra.Rebase.{Rebased, rebase}
use omoplata.Git.Bytes.{Bytes}
use omoplata.Identity.Change.{
  ChangeId, CommitId, draft, Change, IdentityError, ChangeGraph, new, add_change, add_revision,
  supersede, tip,
}
use omoplata.Store.Error.{
  ObjectError, StoreError, unknown_hash_alg, malformed_id, invalid_name, corrupt,
  already_initialized, not_initialized, object_not_found, integrity,
}
use omoplata.Store.Ids.{ObjectId, id_to_string, parse_id}
use omoplata.Store.Object.{Object}
use omoplata.Store.Repository.{Repository, read_object, write_blob}
use omoplata.Store.Text.{as_bytes, from_utf8}
use omoplata.Work.Error.{WorkError}
use omoplata.Work.OpLog.{OpKind, Operation, OpLog, new_log, append, refs_at}

pub record RebaseOutcome : Type 0 where
  pub new_tip : CommitId
  pub conflicts : List Conflict
  pub clean : Bool

pub record StackItem : Type 0 where
  pub change : ChangeId
  pub base : CommitId
  pub tip : CommitId

pub record RebaseRecord : Type 0 where
  pub seq : ℕ
  pub old_tip : CommitId
  pub new_tip : CommitId
  pub onto : CommitId
  pub conflicts : ℕ

pub record ChangeHistory : Type 0 where
  pub change : ChangeId
  pub current_tip : Option CommitId
  pub rebases : List RebaseRecord

pub record RebaseEngine : Type 0 where
  pub repo : Repository
  pub log : OpLog
  pub graph : ChangeGraph

abbrev pub new_engine : Repository → RebaseEngine
new_engine repo = record { repo = repo; log = new_log; graph = new }

abbrev pub with_log : Repository → OpLog → RebaseEngine
with_log repo log = record { repo = repo; log = log; graph = new }

abbrev pub or_empty : Option String → String
or_empty (some s) = s
or_empty none = ""

-- The text of bytes that are one, as the texts in ids and errors are.
abbrev pub text_of : Bytes → String
text_of bytes = or_empty (from_utf8 bytes)

-- The message of an error; the debug form of a name, which neither of the calls here gives, is the
-- name itself.
abbrev pub object_message : ObjectError → String
object_message (unknown_hash_alg text) = "unknown hash algorithm: " <> text_of text
object_message (malformed_id text) = "malformed object id: " <> text_of text
object_message (invalid_name text) = "invalid tree entry name: " <> text_of text
object_message (corrupt reason) = "corrupt object: " <> reason
object_message ObjectError.panicked = ""

-- The error of the store inside one of this crate.
abbrev pub store_error : StoreError → WorkError
store_error (already_initialized path) =
    WorkError.store ("an omoplata repository already exists at " <> path)
store_error (not_initialized path) = WorkError.store ("no omoplata repository found at " <> path)
store_error (object_not_found id) = WorkError.store ("object not found: " <> text_of id)
store_error (integrity id) = WorkError.store ("integrity check failed for object " <> text_of id)
store_error (StoreError.object ObjectError.panicked) = WorkError.panicked
store_error (StoreError.object e) = WorkError.store (object_message e)
store_error (StoreError.io path source) =
    WorkError.store ("i/o error at " <> (path <> (": " <> source)))

abbrev pub parsed_commit : CommitId → Result ObjectError ObjectId → Result WorkError ObjectId
parsed_commit commit (ok id) = ok id
parsed_commit commit (err ObjectError.panicked) = err WorkError.panicked
parsed_commit commit (err e) =
    err (WorkError.content ("malformed commit id " <> (commit <> (": " <> object_message e))))

abbrev pub stored : {A : Type 0} → Result StoreError A → Result WorkError A
stored (ok a) = ok a
stored (err e) = err (store_error e)

-- The message of the decoder is left out of the text.
abbrev pub decoded_doc : CommitId → Option String → Result WorkError Doc
decoded_doc commit (some text) = ok (from_str text)
decoded_doc commit none = err (WorkError.content ("commit " <> (commit <> " is not UTF-8: ")))

abbrev pub text_doc : CommitId → Object → Result WorkError Doc
text_doc commit (Object.blob bytes) = decoded_doc commit (from_utf8 bytes)
text_doc commit (Object.tree entries) =
    err (WorkError.content ("commit " <> (commit <> " is a tree, not text content")))

unfoldable pub ensure_revision :
    ChangeGraph → ChangeId → CommitId → Result IdentityError ChangeGraph
ensure_revision g change commit = elim (get g.changes change) [
  | none ↦ ok (add_change g (record { id = change; revisions = commit ∷ []; phase = draft }))
  | some c ↦ if not (contains c.revisions commit) then add_revision g change commit else ok g
]

-- A step on the graph that can fail, which leaves the graph as it is then.
abbrev pub attempt :
    ChangeGraph
    → Result IdentityError ChangeGraph
    → (ChangeGraph → ChangeGraph × Result WorkError (Unit {0}))
    → ChangeGraph × Result WorkError (Unit {0})
attempt g (err e) next = (g, err (WorkError.identity e))
attempt g (ok g') next = next g'

-- The fact for the change graph: the new tip supersedes the old one, both registered first.
unfoldable pub record_edge :
    ChangeGraph → ChangeId → CommitId → CommitId → ChangeGraph × Result WorkError (Unit {0})
unfolding ensure_revision
record_edge g change old_tip new_tip = attempt g (ensure_revision g change old_tip) (λ g1.
    if not (new_tip == old_tip)
    then attempt g1 (ensure_revision g1 change new_tip)
        (λ g2. attempt g2 (supersede g2 old_tip new_tip) (λ g3. (g3, ok tt)))
    else (g1, ok tt))

abbrev pub outcome_of :
    Rebased → CommitId → Result WorkError (Unit {0}) → Result WorkError RebaseOutcome
outcome_of rebased new_tip (err e) = err e
outcome_of rebased new_tip (ok done) =
    ok
      (record { new_tip = new_tip; conflicts = rebased.conflicts; clean = empty rebased.conflicts })

abbrev pub cons_outcome :
    RebaseOutcome → Result WorkError (List RebaseOutcome) → Result WorkError (List RebaseOutcome)
cons_outcome outcome (err e) = err e
cons_outcome outcome (ok out) = ok (outcome ∷ out)

-- A round of the loop of `auto_rebase_stack`, and the rounds behind it.
abbrev pub then_rest :
    RebaseEngine × Result WorkError RebaseOutcome
    → (RebaseEngine → RebaseOutcome → RebaseEngine × Result WorkError (List RebaseOutcome))
    → RebaseEngine × Result WorkError (List RebaseOutcome)
then_rest (engine, err e) rest = (engine, err e)
then_rest (engine, ok outcome) rest =
    let (engine', out) = rest engine outcome in (engine', cons_outcome outcome out)

module _ (hash : Bytes → Bytes) where
  unfoldable pub load_doc : Repository → CommitId → Result WorkError Doc
  load_doc repo commit = do
    id ← parsed_commit commit (parse_id (as_bytes commit))
    object ← stored (read_object hash repo id)
    text_doc commit object

  unfoldable pub store_doc : Repository → Doc → Repository × CommitId
  store_doc repo doc =
      let (repo', id) = write_blob hash repo (as_bytes (to_string doc)) in
      (repo', text_of (id_to_string id))

  -- What follows once the contents are there.
  unfoldable pub record_rebase :
      RebaseEngine
      → ChangeId
      → CommitId
      → CommitId
      → Rebased
      → RebaseEngine × Result WorkError RebaseOutcome
  unfolding store_doc record_edge
  record_rebase engine change old_tip onto rebased =
      let (repo, new_tip) = store_doc engine.repo rebased.result in
      let op = OpKind.rebase change old_tip new_tip onto (length rebased.conflicts) in
      let (graph, done) = record_edge engine.graph change old_tip new_tip in
      (
        record { repo = repo; log = append engine.log op none; graph = graph },
        outcome_of rebased new_tip done,
      )

  -- The three documents that a rebase replays.
  abbrev pub load_all :
      Repository → (base mine onto : CommitId) → Result WorkError (Doc × Doc × Doc)
  unfolding load_doc
  load_all repo base_commit old_tip_commit onto_commit = do
    base ← load_doc repo base_commit
    mine ← load_doc repo old_tip_commit
    onto ← load_doc repo onto_commit
    ok (base, mine, onto)

  abbrev pub replay :
      RebaseEngine
      → ChangeId
      → CommitId
      → CommitId
      → Result WorkError (Doc × Doc × Doc)
      → RebaseEngine × Result WorkError RebaseOutcome
  unfolding record_rebase rebase
  replay engine change old_tip onto_commit (err e) = (engine, err e)
  replay engine change old_tip onto_commit (ok (base, mine, onto)) =
      record_rebase engine change old_tip onto_commit (rebase base mine onto)

  unfoldable pub auto_rebase :
      RebaseEngine
      → ChangeId
      → (base old_tip onto : CommitId) → RebaseEngine × Result WorkError RebaseOutcome
  unfolding load_all replay
  auto_rebase engine change base old_tip onto =
      replay engine change old_tip onto (load_all engine.repo base old_tip onto)

  -- The loop of `auto_rebase_stack`: each change lands on the tip of the one before.
  unfoldable pub auto_rebase_stack :
      RebaseEngine
      → List StackItem
      → CommitId
      → RebaseEngine × Result WorkError (List RebaseOutcome)
  auto_rebase_stack engine [] acc = (engine, ok [])
  auto_rebase_stack engine (item ∷ stack) acc =
      then_rest (auto_rebase engine item.change item.base item.tip acc)
        (λ engine' outcome. auto_rebase_stack engine' stack outcome.new_tip)

abbrev pub rebase_record : ChangeId → ℕ → OpKind → Option RebaseRecord
rebase_record change seq (OpKind.rebase c old_tip new_tip onto conflicts) =
    if c == change
    then some (record {
      seq = seq;
      old_tip = old_tip;
      new_tip = new_tip;
      onto = onto;
      conflicts = conflicts;
    })
    else none
rebase_record change seq _ = none

abbrev pub cons_record : Option RebaseRecord → List RebaseRecord → List RebaseRecord
cons_record none records = records
cons_record (some r) records = r ∷ records

unfoldable pub rebase_records : ChangeId → List Operation → List RebaseRecord
rebase_records change [] = []
rebase_records change (op ∷ ops) =
    cons_record (rebase_record change op.seq op.kind) (rebase_records change ops)

unfoldable pub history : RebaseEngine → ChangeId → ChangeHistory
unfolding rebase_records
history engine change = record {
  change = change;
  current_tip = tip engine.graph change;
  rebases = rebase_records change engine.log.ops;
}

unfoldable pub tip_as_of : RebaseEngine → ChangeId → ℕ → Option CommitId
tip_as_of engine change seq = get (refs_at engine.log seq) change
