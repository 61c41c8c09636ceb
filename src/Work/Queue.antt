-- ===== src/Work/Queue.antt =====
-- crates/omoplata-work/src/queue.rs: the landing queues, their registry and their gates. The two
-- objects that a landing changes, the change graph and the operation log, are one `World`; a
-- landing returns its result and the world it leaves, for an error too.
pub mod Names
pub mod Landing
pub mod Refusal
pub mod Registry
pub mod Refs
pub mod Batch
use omoplata.Prelude.{
  ℕ, zero, suc, ◌+◌, String, Bool, true, false, not, ◌&&◌, Option, none, some, List, [], ◌∷◌, ◌++◌,
  Result, ok, err, ◌==◌, string_eq, Assoc, get, contains, ltb, if◌then◌else◌,
}
use omoplata.Identity.Change.{ChangeId, public, is_draft, Change, ChangeGraph, set_phase, tip}
use omoplata.Identity.Submission.{SubmissionId, Submission, is_approved}
use omoplata.Work.Error.{
  WorkError, submission_not_approved, queue_carried_refused, queue_validation_failed,
  unknown_change, unknown_queue, queue_exists, identity,
}
use omoplata.Work.OpLog.{OpLog, set_ref, refs_now, append}
use omoplata.Work.Queue.Names.{
  queue_ref, queue_note, land_ref, land_note, landed_message, queue_message,
}

pub record QueuePolicy : Type 0 where
  pub name : String
  pub description : Option String
  pub validate : Option String
  pub require_approval : Bool
  pub allow_carried : Bool

abbrev pub trunk : QueuePolicy
trunk = record {
  name = "trunk";
  description = some "the implicit fleet trunk";
  validate = none;
  require_approval = true;
  allow_carried = true;
}

pub record QueueRegistry : Type 0 where
  pub queues : List QueuePolicy

unfoldable pub find_queue : List QueuePolicy → String → Option QueuePolicy
find_queue [] name = none
find_queue (q ∷ qs) name = if q.name == name then some q else find_queue qs name

unfoldable pub remove_queue : List QueuePolicy → String → List QueuePolicy
remove_queue [] name = []
remove_queue (q ∷ qs) name =
    let rest = remove_queue qs name in if q.name == name then qs else q ∷ rest

abbrev pub lookup : QueueRegistry → String → Option QueuePolicy
lookup reg name = find_queue reg.queues name

abbrev pub resolved : Option QueuePolicy → String → Result WorkError QueuePolicy
resolved (some q) name = ok q
resolved none name = if name == "trunk" then ok trunk else err (unknown_queue name)

unfoldable pub resolve : QueueRegistry → String → Result WorkError QueuePolicy
resolve reg name = resolved (lookup reg name) name

abbrev pub add_if :
    Option QueuePolicy → QueueRegistry → QueuePolicy → Result WorkError QueueRegistry
add_if (some q) reg policy = err (queue_exists policy.name)
add_if none reg policy = ok (record { queues = reg.queues ++ policy ∷ [] })

unfoldable pub add : QueueRegistry → QueuePolicy → Result WorkError QueueRegistry
add reg policy = add_if (lookup reg policy.name) reg policy

abbrev pub remove_if :
    Option QueuePolicy → QueueRegistry → String → Result WorkError (QueuePolicy × QueueRegistry)
remove_if (some q) reg name = ok (q, record { queues = remove_queue reg.queues name })
remove_if none reg name = err (unknown_queue name)

unfoldable pub remove : QueueRegistry → String → Result WorkError (QueuePolicy × QueueRegistry)
remove reg name = remove_if (lookup reg name) reg name

pub record QueueGates : Type 0 where
  pub carried_values : ℕ
  pub validated : Option Bool

pub record LandResult : Type 0 where
  pub submission_id : SubmissionId
  pub landed_changes : List ChangeId
  pub message : String

pub record World : Type 0 where
  pub graph : ChangeGraph
  pub log : OpLog

-- One round of the loop over the changes: the phase first, and then the ref.
abbrev pub publish : ChangeGraph → ChangeId → Change → Result WorkError ChangeGraph
publish g id change = elim (is_draft change.phase) [
  | true ↦ elim (set_phase g id public) [ err e ↦ err (identity e) | ok g' ↦ ok g' ]
  | false ↦ ok g
]

abbrev pub record_ref : OpLog → ChangeGraph → String → String → ChangeId → OpLog
record_ref log g ref note id =
    append log (set_ref ref (get (refs_now log) ref) (tip g id)) (some note)

abbrev pub land_found : World → String → String → ChangeId → Option Change → Result WorkError World
land_found w ref note id none = err (unknown_change id)
land_found w ref note id (some change) = elim (publish w.graph id change) [
  | err e ↦ err e
  | ok g ↦ ok (record { graph = g; log = record_ref w.log g ref note id })
]

unfoldable pub land_change : World → String → String → ChangeId → Result WorkError World
land_change w ref note id = land_found w ref note id (get w.graph.changes id)

abbrev pub landed_too :
    ChangeId → Result WorkError (List ChangeId) × World → Result WorkError (List ChangeId) × World
landed_too id (err e, w) = (err e, w)
landed_too id (ok ids, w) = (ok (id ∷ ids), w)

-- The loop of a landing, with the names of the ref and of the note as functions of the change. It
-- stops at the first error, in the world that it has by then.
unfoldable pub land_changes :
    World
    → (ChangeId → String)
    → (ChangeId → String)
    → List ChangeId
    → Result WorkError (List ChangeId) × World
land_changes w ref note [] = (ok [], w)
land_changes w ref note (id ∷ ids) = elim (land_change w (ref id) (note id) id) [
  | err e ↦ (err e, w)
  | ok w' ↦ landed_too id (land_changes w' ref note ids)
]

-- The message of a landing that went through.
abbrev pub reported :
    SubmissionId
    → String
    → Result WorkError (List ChangeId) × World
    → Result WorkError LandResult × World
reported id message (err e, w) = (err e, w)
reported id message (ok ids, w) =
    (ok (record { submission_id = id; landed_changes = ids; message = message }), w)

unfoldable pub land_submission : Submission → World → Result WorkError LandResult × World
land_submission s w =
    if not (is_approved s)
    then (err (submission_not_approved s.id), w)
    else reported s.id (landed_message s.id) (land_changes w land_ref land_note s.changes)

abbrev pub is_pass : Option Bool → Bool
is_pass (some true) = true
is_pass _ = false

abbrev pub has_validator : QueuePolicy → Bool
has_validator policy = elim policy.validate [ none ↦ false | some command ↦ true ]

abbrev pub reason : Option Bool → String
reason (some false) = "validator exited non-zero"
reason _ = "validator was not run"

-- The two gates on the content: the carried conflict values, and the validation.
unfoldable pub content_gate : QueuePolicy → QueueGates → Option WorkError
content_gate policy gates =
    if ltb 0 gates.carried_values && not policy.allow_carried
    then some (queue_carried_refused policy.name gates.carried_values)
    else (if has_validator policy && not (is_pass gates.validated)
        then some (queue_validation_failed policy.name (reason gates.validated))
        else none)

unfoldable pub gate : Submission → QueuePolicy → QueueGates → Option WorkError
unfolding content_gate
gate s policy gates =
    if policy.require_approval && not (is_approved s)
    then some (submission_not_approved s.id)
    else content_gate policy gates

abbrev pub land_gated :
    Option WorkError
    → Submission
    → QueuePolicy
    → QueueGates
    → World
    → Result WorkError LandResult × World
land_gated (some e) s policy gates w = (err e, w)
land_gated none s policy gates w =
    reported s.id (queue_message s.id policy.name gates.carried_values)
      (land_changes w (queue_ref policy.name) (queue_note policy.name) s.changes)

unfoldable pub land_submission_in_queue :
    Submission → QueuePolicy → QueueGates → World → Result WorkError LandResult × World
land_submission_in_queue s policy gates w = land_gated (gate s policy gates) s policy gates w
