-- ===== src/Work/Queue/Batch/Refused.antt =====
-- What a refused batch leaves, and when it is refused.
use omoplata.Prelude.{
  ◌≡◌, ◌⊎◌, inl, inr, refl, sym, ap, ◌∙◌, Option, none, some, List, [], ◌∷◌, ◌++◌, Result, ok, err,
  Result-cases, Option-cases, arith, if◌then◌else◌,
}
use omoplata.Identity.Submission.{Submission}
use omoplata.Work.Error.{WorkError}
use omoplata.Work.Queue.{
  QueuePolicy, QueueGates, LandResult, World, content_gate, gate, land_submission_in_queue,
}
use omoplata.Work.Queue.Names.{queue_ref, queue_note}
use omoplata.Work.Queue.Refusal.{StopsAt, land_submission_in_queue-err}
use omoplata.Work.Queue.Batch.{
  BatchGates, first_overlap, first_unapproved, single_gates, batch_gate, result_too, land_all,
  land_batch_in_queue,
}

abbrev approvals : List Submission → QueuePolicy → Option WorkError
approvals ss policy = if policy.require_approval then first_unapproved ss else none

-- The approval of the whole batch and the gate on its content open the gate of each submission.
gate-first :
    (s : Submission) (ss : List Submission) (policy : QueuePolicy) (gates : QueueGates)
    → approvals (s ∷ ss) policy ≡ none
    → content_gate policy gates ≡ none
    → (gate s policy gates ≡ none) × (approvals ss policy ≡ none)
unfolding first_unapproved gate
gate-first s ss policy gates a c = (ground arith, ground arith)

result_too-err :
    (r : LandResult) (p : Result WorkError (List LandResult) × World) (e : WorkError) (w : World)
    → result_too r p ≡ (err e, w)
    → p ≡ (err e, w)
result_too-err r (err d, v) e w h = h
result_too-err r (ok rs, v) e w h = absurd (cc (h))

land_all-err_step :
    (s : Submission) (ss : List Submission) (policy : QueuePolicy) (gates : QueueGates) (w : World)
    (e : WorkError)
    → (land_submission_in_queue s policy gates w).0 ≡ err e
    → land_all (s ∷ ss) policy gates w ≡ (err e, (land_submission_in_queue s policy gates w).1)
unfolding land_all
land_all-err_step s ss policy gates w e at = rw (land_all, at)

land_all-ok_step :
    (s : Submission) (ss : List Submission) (policy : QueuePolicy) (gates : QueueGates) (w : World)
    (r : LandResult)
    → (land_submission_in_queue s policy gates w).0 ≡ ok r
    → land_all (s ∷ ss) policy gates w
      ≡ result_too r (land_all ss policy gates (land_submission_in_queue s policy gates w).1)
unfolding land_all
land_all-ok_step s ss policy gates w r at = rw (land_all, at)

-- A batch stops in a submission: the submissions before it have landed, and it stopped at a change that
-- the graph did not know.
abbrev pub StopsIn :
    QueuePolicy → QueueGates → List Submission → (w w' : World) → WorkError → Type 0
StopsIn policy gates ss w w' e =
    (before : List Submission) × (s : Submission) × (rest : List Submission) × (ss
      ≡ before ++ s ∷ rest)
    × ((landed : List LandResult) × (w1 : World) × (land_all before policy gates w
          ≡ (ok landed, w1))
        × StopsAt (queue_ref policy.name) (queue_note policy.name) s.changes w1 w' e)

land_all-StopsIn :
    (ss : List Submission) (policy : QueuePolicy) (gates : QueueGates) (w w' : World)
    (e : WorkError)
    → approvals ss policy ≡ none
    → content_gate policy gates ≡ none
    → land_all ss policy gates w ≡ (err e, w')
    → StopsIn policy gates ss w w' e
unfolding land_all
land_all-StopsIn [] policy gates w w' e a c h = absurd (cc (h))
land_all-StopsIn (s ∷ ss) policy gates w w' e a c h =
    let (through, later) = gate-first s ss policy gates a c in
    let w1 : World = (land_submission_in_queue s policy gates w).1 in
    elim (Result-cases (land_submission_in_queue s policy gates w).0) [
      | inl (d, at) ↦
          let both = sym (land_all-err_step s ss policy gates w d at) ∙ h in
          let error : d ≡ e = ground (arith, both) in
          let world : w1 ≡ w' = ap (λ p. p.1) both in
          let failed =
            ap (λ (r : WorkError). (err r, w1)) error ∙ ap (λ (v : World). (err e, v)) world in
          elim (land_submission_in_queue-err s policy gates w w' e
            (ap (λ r. (r, w1)) at ∙ failed)) [
              | inl (shut, same) ↦ absurd (cc (shut, through))
              | inr (let_in, stops) ↦ ([], s, ss, refl, ([], w, refl, stops))
            ]
      | inr (r, at) ↦
          let (before, last, rest, split, (landed, w2, run, stops)) =
            land_all-StopsIn ss policy gates w1 w' e later c (
              result_too-err r (land_all ss policy gates w1) e w'
                (sym (land_all-ok_step s ss policy gates w r at) ∙ h)) in
          (
            s ∷ before,
            last,
            rest,
            ap (λ (k : List Submission). s ∷ k) split,
            (
              r ∷ landed,
              w2,
              land_all-ok_step s before policy gates w r at ∙ ap (result_too r) run,
              stops,
            ),
          )
    ]

pub batch_gate-parts :
    (ss : List Submission) (policy : QueuePolicy) (gates : BatchGates)
    → batch_gate ss policy gates ≡ none
    → (approvals ss policy ≡ none)
      × (first_overlap gates.manifests ≡ none)
      × (content_gate policy (single_gates gates) ≡ none)
unfolding batch_gate
batch_gate-parts ss policy gates h = (ground arith, ground arith, ground arith)

-- A batch that fails was refused before any landing, and then it has changed nothing, or it was let
-- through and stopped in one of its submissions, at a change of it that the graph did not know, which
-- the error names: then the submissions before it, and the changes before it, have landed.
pub land_batch_in_queue-err :
    (ss : List Submission) (policy : QueuePolicy) (gates : BatchGates) (w w' : World)
    (e : WorkError)
    → land_batch_in_queue ss policy gates w ≡ (err e, w')
    → ((batch_gate ss policy gates ≡ some e) × (w' ≡ w))
      ⊎ ((batch_gate ss policy gates ≡ none) × StopsIn policy (single_gates gates) ss w w' e)
unfolding land_batch_in_queue
land_batch_in_queue-err ss policy gates w w' e h =
    elim (Option-cases (batch_gate ss policy gates)) [
      | inl through ↦
          let (a, apart, c) = batch_gate-parts ss policy gates through in
          inr (
            through,
            land_all-StopsIn ss policy (single_gates gates) w w' e a c
                (sym (rw (through) refl) ∙ h),
          )
      | inr (d, shut) ↦ inl (ground arith, ground arith)
    ]
