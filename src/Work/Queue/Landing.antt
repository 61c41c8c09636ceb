-- ===== src/Work/Queue/Landing.antt =====
-- What a landing does to the changes and to the log.
use mathlib.Core.Path.{subst}
use omoplata.Prelude.{
  ◌≡◌, ◌⊎◌, inl, inr, refl, ◌+◌, suc, String, true, Option, none, some, List, [], ◌∷◌, ok, ◌==◌,
  string_eq, eq→eq, eq_self, get, insert, get-insert, contains, length, length-append, Bool-cases,
  arith,
}
use omoplata.Identity.Change.{ChangeId, Phase, draft, public, Change, ChangeGraph, set_phase, tip}
use omoplata.Identity.Change.WellFormed.{sets_phase}
use omoplata.Identity.Change.Phases.{IsPublic, Amends-IsPublic}
use omoplata.Identity.Submission.{Submission}
use omoplata.Work.OpLog.{OpLog, Operation, OpKind, set_ref, refs_now, append, append_at, next_seq}
use omoplata.Work.Queue.{
  QueuePolicy, QueueGates, World, publish, record_ref, land_change, land_changes, gate,
  land_submission_in_queue,
}
use omoplata.Work.Queue.Names.{queue_message, queue_ref, queue_note}

abbrev pub IsKnown : ChangeGraph → ChangeId → Type 0
IsKnown g id = (c : Change) × (get g.changes id ≡ some c)

-- What landing one more change keeps of the graph.
pub record IsKept (g g' : ChangeGraph) : Type 0 where
  pub known : (id : ChangeId) → IsKnown g id → IsKnown g' id
  pub public : (id : ChangeId) → IsPublic g id → IsPublic g' id

abbrev published : ChangeGraph → ChangeId → Change → ChangeGraph
published g id c = record g { changes = insert g.changes id (record c { phase = public }) }

set_phase-ok :
    (g : ChangeGraph) (id : ChangeId) (c : Change)
    → get g.changes id ≡ some c
    → set_phase g id public ≡ ok (published g id c)
unfolding set_phase
set_phase-ok g id c e = ground arith

insert-IsKnown :
    (g : ChangeGraph) (id : ChangeId) (c : Change) (j : ChangeId)
    → IsKnown g j
    → IsKnown (published g id c) j
insert-IsKnown g id c j (d, e) = elim (Bool-cases (id == j)) [
  | inl same ↦ (
    record c { phase = public },
    ground (arith, get-insert g.changes id j (record c { phase = public })),
  )
  | inr other ↦ (d, ground (arith, get-insert g.changes id j (record c { phase = public })))
]

published-IsKept :
    (g : ChangeGraph) (id : ChangeId) (c : Change)
    → get g.changes id ≡ some c
    → IsKept g (published g id c)
published-IsKept g id c e = record {
  known = insert-IsKnown g id c;
  public =
      λ j. Amends-IsPublic g (published g id c) j (sets_phase id public (set_phase-ok g id c e));
}

published-IsPublic : (g : ChangeGraph) (id : ChangeId) (c : Change) → IsPublic (published g id c) id
published-IsPublic g id c = (
  record c { phase = public },
  ground (arith, get-insert g.changes id id (record c { phase = public }), eq_self id),
  refl,
)

Phase-cases : (p : Phase) → (p ≡ draft) ⊎ (p ≡ public)
Phase-cases draft = inl refl
Phase-cases public = inr refl

pub publish-ok :
    (g : ChangeGraph) (id : ChangeId) (c : Change)
    → get g.changes id ≡ some c
    → (g' : ChangeGraph) × (publish g id c ≡ ok g') × IsKept g g' × IsPublic g' id
publish-ok g id c e = elim (Phase-cases c.phase) [
  | inl p ↦ (
    published g id c,
    ground (arith, set_phase-ok g id c e),
    published-IsKept g id c e,
    published-IsPublic g id c,
  )
  | inr p ↦ (g, ground arith, record { known = λ j h. h; public = λ j h. h }, (c, e, p))
]

next_seq-append :
    (log : OpLog) (kind : OpKind) (text : Option String)
    → next_seq (append log kind text) ≡ suc (next_seq log)
unfolding append append_at
next_seq-append log kind text =
    let op : Operation = record { seq = next_seq log; kind = kind; note = text; time = none } in
    rw (length-append log.ops (op ∷ [])) (omega arith)

-- A known change lands: it is public then, and one operation is logged.
pub land_change-ok :
    (w : World) (ref note : String) (id : ChangeId)
    → IsKnown w.graph id
    → (w' : World) × (land_change w ref note id ≡ ok w')
      × IsKept w.graph w'.graph
      × IsPublic w'.graph id
      × (next_seq w'.log ≡ suc (next_seq w.log))
unfolding land_change
land_change-ok w ref note id (c, e) =
    let (g, published_to, kept, now_public) = publish-ok w.graph id c e in
    (
      record { graph = g; log = record_ref w.log g ref note id },
      ground (arith, e, published_to),
      kept,
      now_public,
      next_seq-append w.log (set_ref ref (get (refs_now w.log) ref) (tip g id)) (some note),
    )

abbrev pub AllPublic : ChangeGraph → List ChangeId → Type 0
AllPublic g ids = (id : ChangeId) → contains ids id ≡ true → IsPublic g id

contains-here : (id : ChangeId) (ids : List ChangeId) → contains (id ∷ ids) id ≡ true
contains-here id ids = ground (arith, eq_self id)

contains-later :
    (id : ChangeId) (ids : List ChangeId) (j : ChangeId)
    → contains ids j ≡ true
    → contains (id ∷ ids) j ≡ true
contains-later id ids j h = ground arith

AllPublic-cons :
    (g : ChangeGraph) (id : ChangeId) (ids : List ChangeId)
    → IsPublic g id
    → AllPublic g ids
    → AllPublic g (id ∷ ids)
AllPublic-cons g id ids here there j h = elim (Bool-cases (id == j)) [
  | inl same ↦ subst (IsPublic g) (eq→eq id j same) here
  | inr other ↦ there j (ground (arith, h, other))
]

abbrev pub AllKnown : ChangeGraph → List ChangeId → Type 0
AllKnown g ids = (id : ChangeId) → contains ids id ≡ true → IsKnown g id

module _ (ref note : ChangeId → String) where
  -- All the changes of a landing are known: each lands.
  pub land_changes-ok :
      (w : World) (ids : List ChangeId)
      → AllKnown w.graph ids
      → (w' : World) × (land_changes w ref note ids ≡ (ok ids, w'))
        × IsKept w.graph w'.graph
        × AllPublic w'.graph ids
        × (next_seq w'.log ≡ next_seq w.log + length ids)
  unfolding land_changes
  land_changes-ok w [] known =
      (w, refl, record { known = λ j h. h; public = λ j h. h }, λ j h. absurd (cc (h)), omega arith)
  land_changes-ok w (id ∷ ids) known =
      let (w1, landed, kept, here, one) =
        land_change-ok w (ref id) (note id) id (known id (contains-here id ids)) in
      let (w2, rest, kept2, there, more) =
        land_changes-ok w1 ids (λ j h. kept.known j (known j (contains-later id ids j h))) in
      (
        w2,
        ground (arith, landed, rest),
        record {
          known = λ j h. kept2.known j (kept.known j h);
          public = λ j h. kept2.public j (kept.public j h);
        },
        AllPublic-cons w2.graph id ids (kept2.public id here) there,
        omega arith,
      )

-- A landing that its gates let through and that names known changes only succeeds: it reports the
-- changes of the submission, each of them is public then, what was public stays public, and the
-- log has one operation more for each.
pub land_submission_in_queue-lands :
    (s : Submission) (policy : QueuePolicy) (gates : QueueGates) (w : World)
    → gate s policy gates ≡ none
    → AllKnown w.graph s.changes
    → (w' : World) × (land_submission_in_queue s policy gates w ≡ (
      ok (record {
        submission_id = s.id;
        landed_changes = s.changes;
        message = queue_message s.id policy.name gates.carried_values;
      }),
      w',
    ))
      × AllPublic w'.graph s.changes
      × ((id : ChangeId) → IsPublic w.graph id → IsPublic w'.graph id)
      × (next_seq w'.log ≡ next_seq w.log + length s.changes)
unfolding land_submission_in_queue
land_submission_in_queue-lands s policy gates w e known =
    let (w', landed, kept, here, more) =
      land_changes-ok (queue_ref policy.name) (queue_note policy.name) w s.changes known in
    (w', rw (e, landed), here, kept.public, more)
