-- ===== src/Work/Queue/Batch.antt =====
-- crates/omoplata-work/src/queue.rs: several submissions landed as one batch. A manifest's maps and
-- sets are lists in ascending order.
pub mod Refused
pub mod Disjoint
use Prim.Native.Nat.{Ordering}
use Prim.Native.String.{compare}
use omoplata.Prelude.{
  ℕ, String, Bool, true, false, not, ◌&&◌, Option, none, some, List, [], ◌∷◌, ◌++◌, map, Result, ok,
  err, ◌==◌, string_eq, Assoc, get, contains, if◌then◌else◌,
}
use omoplata.Identity.Submission.{SubmissionId, Submission, is_approved}
use omoplata.Work.Error.{WorkError, submission_not_approved, batch_overlap}
use omoplata.Work.Queue.{
  QueuePolicy, QueueGates, LandResult, World, content_gate, land_submission_in_queue,
}
use omoplata.Work.Queue.Names.{named_definition}

abbrev pub whole_file_support : String
whole_file_support = "\0whole-file"

abbrev pub Manifest : Type 0
Manifest = Assoc String (List String)

pub record BatchGates : Type 0 where
  pub manifests : List (SubmissionId × Manifest)
  pub carried_values : ℕ
  pub validated : Option Bool

unfoldable pub intersection : List String → List String → List String
intersection [] bs = []
intersection (a ∷ rest) bs =
    let more = intersection rest bs in if contains bs a then a ∷ more else more

abbrev pub collision : String → String → String
collision path def = if def == whole_file_support then path else named_definition path def

abbrev pub shared_in : String → List String → Option (List String) → List String
shared_in path support_a none = []
shared_in path support_a (some support_b) = map (collision path) (intersection support_a support_b)

-- The loop over the paths of the one manifest.
unfoldable pub colliding : Manifest → Manifest → List String
colliding [] man_b = []
colliding ((path, support_a) ∷ man_a) man_b =
    shared_in path support_a (get man_b path) ++ colliding man_a man_b

unfoldable pub insert_sorted : String → List String → List String
insert_sorted s [] = s ∷ []
insert_sorted s (t ∷ ts) =
    let more = insert_sorted s ts in elim (compare s t) [ Ordering.gt ↦ t ∷ more | _ ↦ s ∷ t ∷ ts ]

-- `colliding.sort()`
unfoldable pub sort : List String → List String
sort [] = []
sort (s ∷ ss) = insert_sorted s (sort ss)

abbrev pub overlap_of : SubmissionId → SubmissionId → List String → Option WorkError
overlap_of a b [] = none
overlap_of a b (path ∷ paths) = some (batch_overlap a b (sort (path ∷ paths)))

abbrev pub or_else : Option WorkError → Option WorkError → Option WorkError
or_else (some e) other = some e
or_else none other = other

-- The first overlap of a manifest with a later one.
unfoldable pub overlap_with :
    SubmissionId → Manifest → List (SubmissionId × Manifest) → Option WorkError
overlap_with a man_a [] = none
overlap_with a man_a ((b, man_b) ∷ rest) =
    or_else (overlap_of a b (colliding man_a man_b)) (overlap_with a man_a rest)

unfoldable pub first_overlap : List (SubmissionId × Manifest) → Option WorkError
first_overlap [] = none
first_overlap ((a, man_a) ∷ rest) = or_else (overlap_with a man_a rest) (first_overlap rest)

unfoldable pub first_unapproved : List Submission → Option WorkError
first_unapproved [] = none
first_unapproved (s ∷ ss) =
    let rest = first_unapproved ss in
    if not (is_approved s) then some (submission_not_approved s.id) else rest

abbrev pub single_gates : BatchGates → QueueGates
single_gates gates = record { carried_values = gates.carried_values; validated = gates.validated }

-- All that is checked before the first submission lands.
unfoldable pub batch_gate : List Submission → QueuePolicy → BatchGates → Option WorkError
batch_gate ss policy gates =
    or_else (if policy.require_approval then first_unapproved ss else none)
      (or_else (first_overlap gates.manifests) (content_gate policy (single_gates gates)))

abbrev pub result_too :
    LandResult
    → Result WorkError (List LandResult) × World
    → Result WorkError (List LandResult) × World
result_too r (err e, w) = (err e, w)
result_too r (ok rs, w) = (ok (r ∷ rs), w)

-- The loop over the submissions.
unfoldable pub land_all :
    List Submission → QueuePolicy → QueueGates → World → Result WorkError (List LandResult) × World
land_all [] policy gates w = (ok [], w)
land_all (s ∷ ss) policy gates w =
    let (r, w') = land_submission_in_queue s policy gates w in
    elim r [ err e ↦ (err e, w') | ok landed ↦ result_too landed (land_all ss policy gates w') ]

abbrev pub land_batch_gated :
    Option WorkError
    → List Submission
    → QueuePolicy
    → BatchGates
    → World
    → Result WorkError (List LandResult) × World
land_batch_gated (some e) ss policy gates w = (err e, w)
land_batch_gated none ss policy gates w = land_all ss policy (single_gates gates) w

unfoldable pub land_batch_in_queue :
    List Submission → QueuePolicy → BatchGates → World → Result WorkError (List LandResult) × World
land_batch_in_queue ss policy gates w =
    land_batch_gated (batch_gate ss policy gates) ss policy gates w
