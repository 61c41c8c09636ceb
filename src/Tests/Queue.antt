-- ===== src/Tests/Queue.antt =====
-- The landing queues, with one change that two submissions name and one that is not there.
use omoplata.Work.Queue.{LandResult}
use omoplata.Work.Queue.Names.{queue_ref, queue_note}
use omoplata.Prelude.{
  ◌≡◌, ◌⊎◌, ◌↔◌, refl, ◌+◌, true, false, String, none, some, [], ◌∷◌, ok, err, string_eq, get,
  insert, remove, arith,
}
use omoplata.Identity.Change.{ChangeId, draft, public, set_phase, tip, tip_loop}
use omoplata.Identity.Change.Phases.{IsPublic}
use omoplata.Identity.Submission.{Submission, submission, approve, is_approved}
use omoplata.Work.Error.{unknown_change, submission_not_approved}
use omoplata.Work.OpLog.{new_log, set_ref, append, refs_now, fold_refs, fold_loop, next_seq}
use omoplata.Work.Queue.{
  QueueRegistry, add, find_queue, QueuePolicy, QueueGates, World, trunk, land_changes, land_change,
  gate, content_gate, land_submission_in_queue,
}
use omoplata.Work.Queue.Names.{queue_message}
use omoplata.Work.Queue.Landing.{AllKnown, AllPublic, land_submission_in_queue-lands}
use omoplata.Work.Queue.Refusal.{StopsAt, gate-passes_iff, land_submission_in_queue-err}
use omoplata.Work.Queue.Batch.Disjoint.{AreDisjoint, land_batch_in_queue-AreDisjoint}
use omoplata.Work.Queue.Batch.{
  whole_file_support, Manifest, first_overlap, overlap_with, colliding, intersection, land_all,
  BatchGates, batch_gate, land_batch_in_queue, first_unapproved, single_gates,
}
use omoplata.Work.Queue.Batch.Refused.{StopsIn, land_batch_in_queue-err}

abbrev feature : Submission
feature = submission "sub" "Feature" ("c1" ∷ []) "agent"

abbrev reviewed : Submission
reviewed = approve feature "reviewer"

abbrev world : World
world = record {
  graph = record {
    changes = ("c1", record { id = "c1"; revisions = "a" ∷ []; phase = draft }) ∷ [];
    commit_owner = ("a", "c1") ∷ [];
    superseded_by = [];
  };
  log = new_log;
}

abbrev gates : QueueGates
gates = record { carried_values = 0; validated = none }

abbrev batch : BatchGates
batch = record { manifests = []; carried_values = 0; validated = none }

abbrev name_of : ChangeId → String
name_of id = id

through : gate reviewed trunk gates ≡ none
unfolding gate content_gate
through = refl

shut : gate feature trunk gates ≡ some (submission_not_approved "sub")
unfolding gate content_gate
shut = refl

known : AllKnown world.graph reviewed.changes
unfolding get
known id h = (record { id = "c1"; revisions = "a" ∷ []; phase = draft }, ground arith)

-- The one landing that these runs make.
land_submission_in_queue-lands_example :
    (w' : World) × (land_submission_in_queue reviewed trunk gates world ≡ (
      ok (record {
        submission_id = "sub";
        landed_changes = "c1" ∷ [];
        message = queue_message "sub" "trunk" 0;
      }),
      w',
    ))
    × AllPublic w'.graph ("c1" ∷ [])
    × ((id : ChangeId) → IsPublic world.graph id → IsPublic w'.graph id)
    × (next_seq w'.log ≡ next_seq world.log + 1)
land_submission_in_queue-lands_example =
    land_submission_in_queue-lands reviewed trunk gates world through known

gate-passes_iff_example :
    (gate reviewed trunk gates ≡ none)
    ↔ ((true ≡ false) ⊎ (is_approved reviewed ≡ true))
      × ((gates.carried_values ≡ 0) ⊎ (trunk.allow_carried ≡ true))
      × ((trunk.validate ≡ none) ⊎ (gates.validated ≡ some true))
gate-passes_iff_example = gate-passes_iff reviewed trunk gates

missing : get world.graph.changes "c9" ≡ none
unfolding get
missing = refl

nothing : land_changes world name_of name_of [] ≡ (ok [], world)
unfolding land_changes
nothing = refl

refused :
    land_submission_in_queue feature trunk gates world
    ≡ (err (submission_not_approved "sub"), world)
unfolding land_submission_in_queue gate
refused = refl

refused_batch :
    land_batch_in_queue (reviewed ∷ feature ∷ []) trunk batch world
    ≡ (err (submission_not_approved "sub"), world)
unfolding land_batch_in_queue batch_gate first_unapproved
refused_batch = refl

abbrev landed : World
landed = record {
  graph = record world.graph {
    changes = ("c1", record { id = "c1"; revisions = "a" ∷ []; phase = public }) ∷ [];
  };
  log = append new_log (set_ref "public/c1" none (some "a")) (some "land change c1");
}

lands : land_change world "public/c1" "land change c1" "c1" ≡ ok landed
unfolding land_change get set_phase insert remove tip tip_loop refs_now fold_refs fold_loop
lands = refl

-- The first change is known, the second is not.
abbrev mixed : Submission
mixed = approve (submission "sub" "Feature" ("c1" ∷ "gone" ∷ []) "agent") "reviewer"

stopped : land_submission_in_queue mixed trunk gates world ≡ (err (unknown_change "gone"), landed)
unfolding land_submission_in_queue gate land_changes land_change get set_phase insert remove tip
    tip_loop refs_now fold_refs fold_loop queue_ref queue_note
stopped = refl

land_submission_in_queue-err_example :
    ((gate mixed trunk gates ≡ some (unknown_change "gone")) × (landed ≡ world))
    ⊎ ((gate mixed trunk gates ≡ none)
        × StopsAt
            (queue_ref "trunk")
            (queue_note "trunk")
            mixed.changes
            world
            landed
            (unknown_change "gone"))
land_submission_in_queue-err_example =
    land_submission_in_queue-err mixed trunk gates world landed (unknown_change "gone") stopped

stopped_batch :
    land_batch_in_queue (mixed ∷ []) trunk batch world ≡ (err (unknown_change "gone"), landed)
unfolding land_batch_in_queue batch_gate first_unapproved land_all land_submission_in_queue gate
    land_changes land_change get set_phase insert remove tip tip_loop refs_now fold_refs fold_loop
    first_overlap queue_ref queue_note
stopped_batch = refl

land_batch_in_queue-err_example :
    ((batch_gate (mixed ∷ []) trunk batch ≡ some (unknown_change "gone")) × (landed ≡ world))
    ⊎ ((batch_gate (mixed ∷ []) trunk batch ≡ none)
        × StopsIn trunk (single_gates batch) (mixed ∷ []) world landed (unknown_change "gone"))
land_batch_in_queue-err_example =
    land_batch_in_queue-err (mixed ∷ []) trunk batch world landed (unknown_change "gone")
      stopped_batch

abbrev release : QueuePolicy
release = record trunk { name = "release-1"; allow_carried = false }

abbrev one_queue : QueueRegistry
one_queue = record { queues = trunk ∷ [] }

abbrev two_queues : QueueRegistry
two_queues = record { queues = trunk ∷ release ∷ [] }

registers : add one_queue release ≡ ok two_queues
unfolding add find_queue
registers = refl

abbrev peek : Manifest
peek = ("src/lib.rs", "fn Q::peek" ∷ []) ∷ []

abbrev retry : Manifest
retry = ("src/lib.rs", "fn retry" ∷ []) ∷ []

abbrev apart : BatchGates
apart = record {
  manifests = ("sub-a", peek) ∷ ("sub-b", retry) ∷ [];
  carried_values = 0;
  validated = none;
}

abbrev result : LandResult
result = record {
  submission_id = "sub";
  landed_changes = "c1" ∷ [];
  message = queue_message "sub" "trunk" 0;
}

lands_batch : land_batch_in_queue (reviewed ∷ []) trunk apart world ≡ (ok (result ∷ []), landed)
unfolding land_batch_in_queue batch_gate first_unapproved first_overlap overlap_with colliding get
    intersection content_gate land_all land_submission_in_queue gate land_changes land_change
    set_phase insert remove tip tip_loop refs_now fold_refs fold_loop queue_ref queue_note
lands_batch = refl

land_batch_in_queue-AreDisjoint_example : AreDisjoint peek retry
land_batch_in_queue-AreDisjoint_example =
    land_batch_in_queue-AreDisjoint (reviewed ∷ []) trunk apart world landed (result ∷ []) [] [] []
      "sub-a" "sub-b" peek retry lands_batch refl

-- A change of a whole file and a change of one definition of it are not found to overlap.
whole_file_apart :
    first_overlap (
      ("a", ("src/lib.rs", whole_file_support ∷ []) ∷ [])
      ∷ ("b", ("src/lib.rs", "fn foo" ∷ []) ∷ [])
      ∷ [])
    ≡ none
unfolding first_overlap overlap_with colliding intersection get
whole_file_apart = refl
