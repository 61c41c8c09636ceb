-- ===== src/Work/Queue/Refusal.antt =====
-- Where a landing stops, and what a refusal leaves.
use omoplata.Prelude.{
  ◌≡◌, ◌⊎◌, ◌↔◌, inl, inr, refl, sym, ap, ◌∙◌, String, true, false, none, some, List, [], ◌∷◌, ◌++◌,
  Result, ok, err, ok-inj, Result-cases, string_eq, get, Bool-cases, Option-cases, arith,
}
use omoplata.Identity.Change.{ChangeId}
use omoplata.Identity.Submission.{Submission, is_approved}
use omoplata.Work.Error.{WorkError, unknown_change}
use omoplata.Work.Queue.{
  QueuePolicy, QueueGates, World, trunk, land_change, land_changes, landed_too, reported,
  content_gate, gate, land_submission, land_submission_in_queue,
}
use omoplata.Work.Queue.Landing.{publish-ok, land_change-ok}
use omoplata.Work.Queue.Names.{
  land_ref, land_note, landed_message, queue_message, queue_ref, queue_note,
}

landed_too-ok :
    (id : ChangeId) (p : Result WorkError (List ChangeId) × World) (ids : List ChangeId) (w : World)
    → landed_too id p ≡ (ok ids, w)
    → (before : List ChangeId) × (p ≡ (ok before, w))
landed_too-ok id (err e, v) ids w h = absurd (cc (h))
landed_too-ok id (ok before, v) ids w h = (before, ground arith)

land_change-missing :
    (w : World) (ref note : String) (id : ChangeId)
    → get w.graph.changes id ≡ none
    → land_change w ref note id ≡ err (unknown_change id)
unfolding land_change
land_change-missing w ref note id e = rw (e)

module _ (ref note : ChangeId → String) where
  land_changes-ok_step :
      (w w1 : World) (id : ChangeId) (ids : List ChangeId)
      → land_change w (ref id) (note id) id ≡ ok w1
      → land_changes w ref note (id ∷ ids) ≡ landed_too id (land_changes w1 ref note ids)
  unfolding land_changes
  land_changes-ok_step w w1 id ids e = rw (land_changes, e)

  land_changes-err_step :
      (w : World) (id : ChangeId) (ids : List ChangeId) (e : WorkError)
      → land_change w (ref id) (note id) id ≡ err e
      → land_changes w ref note (id ∷ ids) ≡ (err e, w)
  unfolding land_changes
  land_changes-err_step w id ids e at = rw (land_changes, at)

  land_changes-cons :
      (w w' : World) (id : ChangeId) (ids ids' : List ChangeId)
      → land_changes w ref note (id ∷ ids) ≡ (ok ids', w')
      → (w1 : World) × (before : List ChangeId) × (land_change w (ref id) (note id) id ≡ ok w1)
        × (land_changes w1 ref note ids ≡ (ok before, w'))
  land_changes-cons w w' id ids ids' h = elim (Result-cases (land_change w (ref id) (note id) id)) [
    | inl (e, at) ↦ absurd (cc (sym (land_changes-err_step w id ids e at) ∙ h))
    | inr (w1, at) ↦
        let (before, same) =
          landed_too-ok id (land_changes w1 ref note ids) ids' w'
            (sym (land_changes-ok_step w w1 id ids at) ∙ h) in
        (w1, before, at, same)
  ]

  same_world :
      (w w' : World) (ids' : List ChangeId) → land_changes w ref note [] ≡ (ok ids', w') → w ≡ w'
  unfolding land_changes
  same_world w w' ids' e = ap (λ p. p.1) e

  -- A change that the graph does not know stops a landing: the changes before it have landed then,
  -- and the ones after it have not been touched.
  pub land_changes-stops :
      (w w' : World) (ids ids' rest : List ChangeId) (missing : ChangeId)
      → land_changes w ref note ids ≡ (ok ids', w')
      → get w'.graph.changes missing ≡ none
      → land_changes w ref note (ids ++ missing ∷ rest) ≡ (err (unknown_change missing), w')
  land_changes-stops w w' [] ids' rest missing landed e = rw (
    land_changes-err_step w missing rest (unknown_change missing) (
        land_change-missing w (ref missing) (note missing) missing
          (rw (same_world w w' ids' landed) e)),
    same_world w w' ids' landed,
  )
  land_changes-stops w w' (id ∷ ids) ids' rest missing landed e =
      let (w1, before, first, more) = land_changes-cons w w' id ids ids' landed in
      rw (
        land_changes-ok_step w w1 id (ids ++ missing ∷ rest) first,
        land_changes-stops w1 w' ids before rest missing more e,
      )

-- The gates let a landing through exactly where the approval that the policy asks for is there, no
-- conflict values are carried or the policy allows them, and a validator of the policy has passed.
pub gate-passes_iff :
    (s : Submission) (policy : QueuePolicy) (gates : QueueGates)
    → (gate s policy gates ≡ none)
      ↔ ((policy.require_approval ≡ false) ⊎ (is_approved s ≡ true))
        × ((gates.carried_values ≡ 0) ⊎ (policy.allow_carried ≡ true))
        × ((policy.validate ≡ none) ⊎ (gates.validated ≡ some true))
unfolding gate content_gate
gate-passes_iff s policy gates = (λ h. ground arith, λ h. ground arith)

land_change-err :
    (w : World) (ref note : String) (id : ChangeId) (e : WorkError)
    → land_change w ref note id ≡ err e
    → (get w.graph.changes id ≡ none) × (e ≡ unknown_change id)
unfolding land_change
land_change-err w ref note id e h = elim (Option-cases (get w.graph.changes id)) [
  | inl missing ↦ (missing, ground arith)
  | inr (c, at) ↦
      let (g, to, kept, now) = publish-ok w.graph id c at in absurd (ground (arith, at, to))
]

-- What the graph does not know behind a change that has landed, it did not know before.
land_change-unknown :
    (w w1 : World) (ref note : String) (id other : ChangeId)
    → land_change w ref note id ≡ ok w1
    → get w1.graph.changes other ≡ none
    → get w.graph.changes other ≡ none
land_change-unknown w w1 ref note id other h missing =
    elim (Option-cases (get w.graph.changes id)) [
      | inl unknown ↦ absurd (cc (sym (land_change-missing w ref note id unknown) ∙ h))
      | inr known ↦ elim (Option-cases (get w.graph.changes other)) [
        | inl none_there ↦ none_there
        | inr there ↦
            let (w2, landed, kept, here, one) = land_change-ok w ref note id known in
            let (c, at) = kept.known other there in
            let same : w2 ≡ w1 = ok-inj (sym landed ∙ h) in
            absurd (cc (sym at ∙ ap (λ (v : World). get v.graph.changes other) same ∙ missing))
      ]
    ]

landed_too-err :
    (id : ChangeId) (p : Result WorkError (List ChangeId) × World) (e : WorkError) (w : World)
    → landed_too id p ≡ (err e, w)
    → p ≡ (err e, w)
landed_too-err id (err d, v) e w h = h
landed_too-err id (ok ids, v) e w h = absurd (cc (h))

-- A landing stops at a change of the list: the changes before it have landed, which left the second
-- world, neither world knows the change, and the error names it.
abbrev pub StopsAt :
    (ref note : ChangeId → String) → List ChangeId → (w w' : World) → WorkError → Type 0
StopsAt ref note ids w w' e =
    (before : List ChangeId) × (id : ChangeId) × (rest : List ChangeId) × (ids
      ≡ before ++ id ∷ rest)
    × ((landed : List ChangeId) × (land_changes w ref note before ≡ (ok landed, w')))
    × (get w.graph.changes id ≡ none)
    × (get w'.graph.changes id ≡ none)
    × (e ≡ unknown_change id)

land_changes-StopsAt :
    (ref note : ChangeId → String) (w w' : World) (ids : List ChangeId) (e : WorkError)
    → land_changes w ref note ids ≡ (err e, w')
    → StopsAt ref note ids w w' e
unfolding land_changes
land_changes-StopsAt ref note w w' [] e h = absurd (cc (h))
land_changes-StopsAt ref note w w' (id ∷ ids) e h =
    elim (Result-cases (land_change w (ref id) (note id) id)) [
      | inl (d, at) ↦
          let (missing, named) = land_change-err w (ref id) (note id) id d at in
          let both = sym (land_changes-err_step ref note w id ids d at) ∙ h in
          let same : w ≡ w' = ap (λ p. p.1) both in
          let error : e ≡ d = ground (arith, both) in
          (
            [],
            id,
            ids,
            refl,
            ([], ap (λ (v : World). (ok [], v)) same),
            missing,
            ap (λ (v : World). get v.graph.changes id) (sym same) ∙ missing,
            error ∙ named,
          )
      | inr (w1, at) ↦
          let (before, bad, rest, split, (landed, run), missing, missing', named) =
            land_changes-StopsAt ref note w1 w' ids e (
              landed_too-err id (land_changes w1 ref note ids) e w'
                (sym (land_changes-ok_step ref note w w1 id ids at) ∙ h)) in
          (
            id ∷ before,
            bad,
            rest,
            ap (λ (k : List ChangeId). id ∷ k) split,
            (id ∷ landed, land_changes-ok_step ref note w w1 id before at ∙ ap (landed_too id) run),
            land_change-unknown w w1 (ref id) (note id) id bad at missing,
            missing',
            named,
          )
    ]

reported-err :
    (id message : String) (p : Result WorkError (List ChangeId) × World) (e : WorkError) (w : World)
    → reported id message p ≡ (err e, w)
    → p ≡ (err e, w)
reported-err id message (err d, v) e w h = ground arith
reported-err id message (ok ids, v) e w h = absurd (cc (h))

gate-through :
    (s : Submission) (policy : QueuePolicy) (gates : QueueGates) (w : World)
    → gate s policy gates ≡ none
    → land_submission_in_queue s policy gates w
      ≡ reported s.id
          (queue_message s.id policy.name gates.carried_values)
          (land_changes w (queue_ref policy.name) (queue_note policy.name) s.changes)
unfolding land_submission_in_queue
gate-through s policy gates w e = rw (land_submission_in_queue, e)

-- A landing that fails was refused by its gates, and then it has changed nothing, or it was let through
-- and stopped at a change of the submission that the graph does not know, which the error names: then
-- the changes before it have landed.
pub land_submission_in_queue-err :
    (s : Submission) (policy : QueuePolicy) (gates : QueueGates) (w w' : World) (e : WorkError)
    → land_submission_in_queue s policy gates w ≡ (err e, w')
    → ((gate s policy gates ≡ some e) × (w' ≡ w))
      ⊎ ((gate s policy gates ≡ none)
          × StopsAt (queue_ref policy.name) (queue_note policy.name) s.changes w w' e)
unfolding land_submission_in_queue
land_submission_in_queue-err s policy gates w w' e h = elim (Option-cases (gate s policy gates)) [
  | inl through ↦ inr (
    through,
    land_changes-StopsAt (queue_ref policy.name) (queue_note policy.name) w w' s.changes e (
        reported-err s.id (queue_message s.id policy.name gates.carried_values)
          (land_changes w (queue_ref policy.name) (queue_note policy.name) s.changes) e w'
          (sym (gate-through s policy gates w through) ∙ h)),
  )
  | inr (d, shut) ↦ inl (ground arith, ground arith)
]

reported-world :
    (id message : String) (p : Result WorkError (List ChangeId) × World)
    → (reported id message p).1 ≡ p.1
reported-world id message (err e, w) = refl
reported-world id message (ok ids, w) = refl

same_names :
    (w : World) (ids : List ChangeId)
    → land_changes w (queue_ref "trunk") (queue_note "trunk") ids
      ≡ land_changes w land_ref land_note ids
unfolding queue_ref queue_note
same_names w ids = refl

-- Landing into the implicit trunk leaves the same world as landing without a queue, whatever the
-- gates saw: the same changes are published, under the same refs and with the same notes.
pub trunk-land_submission :
    (s : Submission) (gates : QueueGates) (w : World)
    → (land_submission_in_queue s trunk gates w).1 ≡ (land_submission s w).1
unfolding land_submission_in_queue land_submission gate content_gate
trunk-land_submission s gates w = elim (Bool-cases (is_approved s)) [
  | inl approved ↦
      let through = (gate-passes_iff s trunk gates).1 (inr approved, inr refl, inl refl) in
      let names : List ChangeId → Result WorkError (List ChangeId) × World =
        land_changes w (queue_ref "trunk") (queue_note "trunk") in
      ground (
        arith,
        through,
        approved,
        same_names w s.changes,
        reported-world s.id (queue_message s.id "trunk" gates.carried_values) (names s.changes),
        reported-world s.id (landed_message s.id) (land_changes w land_ref land_note s.changes),
      )
  | inr other ↦ ground arith
]
