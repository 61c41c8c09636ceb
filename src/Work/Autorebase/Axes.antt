-- ===== src/Work/Autorebase/Axes.antt =====
-- A rebase that succeeds is seen on both time axes: in the refs and the history that the log gives, and
-- in the supersession edges.
use mathlib.Core.Path.{subst}
use omoplata.Prelude.{
  ◌≡◌, ◌⊎◌, refl, ap, sym, ◌∙◌, inl, inr, ℕ, ◌≤◌, String, Option, none, some, List, [], ◌∷◌, ◌++◌,
  length, Assoc, get, get-insert_self, ◌==◌, string_eq, Result, ok, err, ok-inj, Bool-cases,
  if◌then◌else◌,
}
use omoplata.Algebra.Rebase.{Rebased}
use omoplata.Git.Bytes.{Bytes}
use omoplata.Identity.Change.{ChangeId, CommitId}
use omoplata.Identity.Change.WellFormed.{IsWellFormed}
use omoplata.Work.Error.{WorkError}
use omoplata.Work.OpLog.{
  OpKind, Operation, OpLog, append, append_at, next_seq, refs_now, u64_max, apply_op,
}
use omoplata.Work.OpLog.Activity.{IsLog}
use omoplata.Work.OpLog.Undo.{refs_now-append, append-IsLog}
use omoplata.Work.Autorebase.{
  RebaseOutcome, RebaseRecord, RebaseEngine, outcome_of, auto_rebase, rebase_record, cons_record,
  rebase_records, history,
}
use omoplata.Work.Autorebase.Edges.{Recorded}
use omoplata.Work.Autorebase.Recorded.{Moves, tip_after, auto_rebase-Moves}

rebase_records-append :
    (c : ChangeId) (ops : List Operation) (op : Operation)
    → rebase_records c (ops ++ op ∷ [])
      ≡ rebase_records c ops ++ cons_record (rebase_record c op.seq op.kind) []
unfolding rebase_records
rebase_records-append c [] op = refl
rebase_records-append c (o ∷ ops) op =
    ap (cons_record (rebase_record c o.seq o.kind)) (rebase_records-append c ops op)
    ∙ through (rebase_record c o.seq o.kind) (rebase_records c ops) _
  where
    through :
        (r : Option RebaseRecord) (xs ys : List RebaseRecord)
        → cons_record r (xs ++ ys) ≡ cons_record r xs ++ ys
    through none xs ys = refl
    through (some r) xs ys = refl

outcome_of-ok :
    (r : Rebased) (t : CommitId) (done : Result WorkError (Unit {0})) (out : RebaseOutcome)
    → outcome_of r t done ≡ ok out
    → (done ≡ ok tt) × (t ≡ out.new_tip) × (r.conflicts ≡ out.conflicts)
outcome_of-ok r t (err e) out h = absurd (cc (h))
outcome_of-ok r t (ok done) out h =
    let same = ok-inj h in
    (refl, ap (λ (o : RebaseOutcome). o.new_tip) same, ap (λ (o : RebaseOutcome). o.conflicts) same)

-- The new operation is the last of the log.
appended_records :
    (log : OpLog) (kind : OpKind) (c : ChangeId)
    → rebase_records c (append log kind none).ops
      ≡ rebase_records c log.ops ++ cons_record (rebase_record c (next_seq log) kind) []
unfolding append append_at
appended_records log kind c = rebase_records-append c log.ops _

one_record :
    (c change : ChangeId) (seq n : ℕ) (old_tip new_tip onto : CommitId)
    → cons_record (rebase_record c seq (OpKind.rebase change old_tip new_tip onto n)) [] ≡ (
        if change == c
        then record { seq = seq; old_tip = old_tip; new_tip = new_tip; onto = onto; conflicts = n }
          ∷ []
        else [])
one_record c change seq n old_tip new_tip onto = elim (Bool-cases (change == c)) [
  | inl same ↦ rw (same)
  | inr other ↦ rw (other)
]

module _ (hash : Bytes → Bytes) where
  -- A call that succeeds moved the change.
  pub succeeded :
      (engine engine' : RebaseEngine) (change : ChangeId) (base old_tip onto : CommitId)
      (out : RebaseOutcome)
      → IsWellFormed engine.graph
      → auto_rebase hash engine change base old_tip onto ≡ (engine', ok out)
      → (engine'.log
          ≡ append engine.log
              (OpKind.rebase change old_tip out.new_tip onto (length out.conflicts))
              none)
        × ((out.new_tip ≡ old_tip) ⊎ (get engine'.graph.superseded_by old_tip ≡ some out.new_tip))
        × IsWellFormed engine'.graph
  succeeded engine engine' change base old_tip onto out w h =
      elim (auto_rebase-Moves hash engine change base old_tip onto w) [
        | inl (e, fails, failed) ↦
            let clash : ◌≡◌ {A = Result WorkError RebaseOutcome} (err e) (ok out) =
              ap (λ (p : RebaseEngine × Result WorkError RebaseOutcome). p.1) (sym failed ∙ h) in
            absurd (cc (clash))
        | inr (r, replays, moves) ↦
            let (log, (done, result, recorded), w') =
              subst (Moves hash engine change old_tip onto r) h moves in
            let (went, same_tip, same_conflicts) =
              outcome_of-ok r (tip_after hash engine r) done out (sym result) in
            let edge : Recorded engine'.graph old_tip (tip_after hash engine r) (ok tt) =
              subst (Recorded engine'.graph old_tip (tip_after hash engine r)) went recorded in
            (log ∙ rw (same_tip, same_conflicts) refl, rw (← same_tip) edge, w')
      ]

  -- On a well-formed graph and log, whose next number fits a word, a rebase that succeeds leaves both
  -- well-formed, and is seen on both axes: the ref of the change is the new tip, the old tip is
  -- superseded by it unless it is the same one, and the history of the change has one record more, of
  -- this move, where that of any other change is as it was.
  pub auto_rebase-axes :
      (engine engine' : RebaseEngine) (change : ChangeId) (base old_tip onto : CommitId)
      (out : RebaseOutcome)
      → IsWellFormed engine.graph
      → IsLog 0 engine.log.ops
      → next_seq engine.log ≤ u64_max
      → auto_rebase hash engine change base old_tip onto ≡ (engine', ok out)
      → (IsWellFormed engine'.graph × IsLog 0 engine'.log.ops)
        × (get (refs_now engine'.log) change ≡ some out.new_tip)
        × ((out.new_tip ≡ old_tip) ⊎ (get engine'.graph.superseded_by old_tip ≡ some out.new_tip))
        × ((c : ChangeId)
            → (history engine' c).rebases
              ≡ (history engine c).rebases
                ++ (if change == c
                    then record {
                      seq = next_seq engine.log;
                      old_tip = old_tip;
                      new_tip = out.new_tip;
                      onto = onto;
                      conflicts = length out.conflicts;
                    }
                      ∷ []
                    else []))
  unfolding history apply_op
  auto_rebase-axes engine engine' change base old_tip onto out w log short h =
      let (moved, edge, w') = succeeded engine engine' change base old_tip onto out w h in
      let kind = OpKind.rebase change old_tip out.new_tip onto (length out.conflicts) in
      (
        (
          w',
          subst (λ (l : OpLog). IsLog 0 l.ops) (sym moved)
              (append-IsLog engine.log kind none log (λ t. refl)),
        ),
        ap (λ (l : OpLog). get (refs_now l) change) moved
            ∙ ap (λ (refs : Assoc String CommitId). get refs change)
                (refs_now-append engine.log kind none log (λ t. refl) short)
            ∙ get-insert_self (refs_now engine.log) change out.new_tip,
        edge,
        λ c.
            ap (λ (l : OpLog). rebase_records c l.ops) moved
            ∙ appended_records engine.log kind c
            ∙ ap (λ (xs : List RebaseRecord). rebase_records c engine.log.ops ++ xs)
                (one_record c change (next_seq engine.log) (length out.conflicts) old_tip
                  out.new_tip onto),
      )
