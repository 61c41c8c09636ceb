-- ===== src/Work/Autorebase/Stacked.antt =====
-- A stack of changes is replayed in order, each onto the tip of the one before.
use mathlib.Core.Path.{subst}
use mathlib.Core.List.{append_assoc, append-nil}
use omoplata.Prelude.{
  ◌≡◌, refl, ap, sym, ◌∙◌, inl, inr, ℕ, suc, none, List, [], ◌∷◌, ◌++◌, length, length-append,
  Result, ok, err, ok-inj, Result-cases, arith,
}
use omoplata.Git.Bytes.{Bytes}
use omoplata.Identity.Change.{CommitId}
use omoplata.Identity.Change.WellFormed.{IsWellFormed}
use omoplata.Work.Error.{WorkError}
use omoplata.Work.OpLog.{OpKind, Operation, OpLog, append, append_at, next_seq}
use omoplata.Work.Autorebase.{
  RebaseOutcome, RebaseEngine, StackItem, auto_rebase, cons_outcome, then_rest, auto_rebase_stack,
}
use omoplata.Work.Autorebase.Axes.{succeeded}

-- The operations of a stack: each change in its turn, onto the new tip of the one before.
abbrev pub stack_ops : ℕ → CommitId → List StackItem → List RebaseOutcome → List Operation
stack_ops seq onto (item ∷ stack) (outcome ∷ out) =
    record {
      seq = seq;
      kind = OpKind.rebase item.change item.tip outcome.new_tip onto (length outcome.conflicts);
      note = none;
      time = none;
    }
    ∷ stack_ops (suc seq) outcome.new_tip stack out
stack_ops seq onto _ _ = []

cons_outcome-ok :
    (outcome : RebaseOutcome) (r : Result WorkError (List RebaseOutcome)) (out : List RebaseOutcome)
    → cons_outcome outcome r ≡ ok out
    → (rest : List RebaseOutcome) × (r ≡ ok rest) × (out ≡ outcome ∷ rest)
cons_outcome-ok outcome (err e) out h = absurd (cc (h))
cons_outcome-ok outcome (ok rest) out h = (rest, refl, sym (ok-inj h))

appended_ops :
    (log : OpLog) (kind : OpKind)
    → ((append log kind none).ops
        ≡ log.ops ++ record { seq = next_seq log; kind = kind; note = none; time = none } ∷ [])
      × (next_seq (append log kind none) ≡ suc (next_seq log))
unfolding append append_at
appended_ops log kind = (
  refl,
  omega (
    arith,
    length-append log.ops
        (record { seq = next_seq log; kind = kind; note = none; time = none } ∷ []),
  ),
)

module _ (hash : Bytes → Bytes) where
  stack-step-ok :
      (engine engine' : RebaseEngine) (item : StackItem) (stack : List StackItem) (acc : CommitId)
      (outcome : RebaseOutcome)
      → auto_rebase hash engine item.change item.base item.tip acc ≡ (engine', ok outcome)
      → auto_rebase_stack hash engine (item ∷ stack) acc ≡ (
        (auto_rebase_stack hash engine' stack outcome.new_tip).0,
        cons_outcome outcome (auto_rebase_stack hash engine' stack outcome.new_tip).1,
      )
  unfolding auto_rebase_stack
  stack-step-ok engine engine' item stack acc outcome h =
      ap
        (λ (p : RebaseEngine × Result WorkError RebaseOutcome).
          then_rest p (λ e o. auto_rebase_stack hash e stack o.new_tip))
        h

  stack-step-err :
      (engine engine' : RebaseEngine) (item : StackItem) (stack : List StackItem) (acc : CommitId)
      (e : WorkError)
      → auto_rebase hash engine item.change item.base item.tip acc ≡ (engine', err e)
      → auto_rebase_stack hash engine (item ∷ stack) acc ≡ (engine', err e)
  unfolding auto_rebase_stack
  stack-step-err engine engine' item stack acc e h =
      ap
        (λ (p : RebaseEngine × Result WorkError RebaseOutcome).
          then_rest p (λ e o. auto_rebase_stack hash e stack o.new_tip))
        h

  assembled :
      (engine middle engine' : RebaseEngine) (item : StackItem) (stack : List StackItem)
      (onto : CommitId) (outcome : RebaseOutcome) (rest out : List RebaseOutcome)
      → middle.log
        ≡ append engine.log
            (OpKind.rebase item.change item.tip outcome.new_tip onto (length outcome.conflicts))
            none
      → out ≡ outcome ∷ rest
      → engine'.log.ops
        ≡ middle.log.ops ++ stack_ops (next_seq middle.log) outcome.new_tip stack rest
      → engine'.log.ops ≡ engine.log.ops ++ stack_ops (next_seq engine.log) onto (item ∷ stack) out
  assembled engine middle engine' item stack onto outcome rest out moved all ops =
      let kind =
        OpKind.rebase item.change item.tip outcome.new_tip onto (length outcome.conflicts) in
      let (longer, later) = appended_ops engine.log kind in
      rw (all) (
        ops
        ∙ ap (λ (l : OpLog). l.ops ++ stack_ops (next_seq l) outcome.new_tip stack rest) moved
        ∙ rw (later, longer)
            (append_assoc engine.log.ops _
              (stack_ops (suc (next_seq engine.log)) outcome.new_tip stack rest)))

  -- On a well-formed graph, a stack that is replayed gives an outcome for each change, and the log has
  -- as many operations more, in the order of the stack: each moves its change from its tip to the tip
  -- of its outcome, and all but the first onto the tip that the one before got.
  pub auto_rebase_stack-ops :
      (engine engine' : RebaseEngine) (stack : List StackItem) (onto : CommitId)
      (out : List RebaseOutcome)
      → IsWellFormed engine.graph
      → auto_rebase_stack hash engine stack onto ≡ (engine', ok out)
      → (length out ≡ length stack)
        × (engine'.log.ops ≡ engine.log.ops ++ stack_ops (next_seq engine.log) onto stack out)
        × IsWellFormed engine'.graph
  unfolding auto_rebase_stack
  auto_rebase_stack-ops engine engine' [] onto out w h =
      let same_engine : engine ≡ engine' =
        ap (λ (p : RebaseEngine × Result WorkError (List RebaseOutcome)). p.0) h in
      let nothing : [] ≡ out =
        ok-inj (ap (λ (p : RebaseEngine × Result WorkError (List RebaseOutcome)). p.1) h) in
      (
        ap (λ (os : List RebaseOutcome). length os) (sym nothing),
        ap (λ (x : RebaseEngine). x.log.ops) (sym same_engine) ∙ sym (append-nil engine.log.ops),
        subst (λ (x : RebaseEngine). IsWellFormed x.graph) same_engine w,
      )
  auto_rebase_stack-ops engine engine' (item ∷ stack) onto out w h =
      let p = auto_rebase hash engine item.change item.base item.tip onto in
      elim (Result-cases p.1) [
        | inl (e, failed) ↦
            let stopped =
              stack-step-err engine p.0 item stack onto e
                (ap (λ (r : Result WorkError RebaseOutcome). (p.0, r)) failed) in
            let clash : ◌≡◌ {A = Result WorkError (List RebaseOutcome)} (err e) (ok out) =
              ap (λ (q : RebaseEngine × Result WorkError (List RebaseOutcome)). q.1)
                (sym stopped ∙ h) in
            absurd (cc (clash))
        | inr (outcome, went) ↦
            let here : p ≡ (p.0, ok outcome) =
              ap (λ (r : Result WorkError RebaseOutcome). (p.0, r)) went in
            let (moved, edge, w') =
              succeeded hash engine p.0 item.change item.base item.tip onto outcome w here in
            let q = auto_rebase_stack hash p.0 stack outcome.new_tip in
            let step = sym (stack-step-ok engine p.0 item stack onto outcome here) ∙ h in
            let (rest, rest_ok, all) =
              cons_outcome-ok outcome q.1 out
                (ap (λ (x : RebaseEngine × Result WorkError (List RebaseOutcome)). x.1) step) in
            let same_engine : q.0 ≡ engine' =
              ap (λ (x : RebaseEngine × Result WorkError (List RebaseOutcome)). x.0) step in
            let (sizes, ops, w'') =
              auto_rebase_stack-ops p.0 engine' stack outcome.new_tip rest w' (
                ap (λ (x : RebaseEngine). (x, q.1)) same_engine
                ∙ ap (λ (r : Result WorkError (List RebaseOutcome)). (engine', r)) rest_ok) in
            (
              ap (λ (os : List RebaseOutcome). length os) all ∙ ap (λ (n : ℕ). suc n) sizes,
              assembled engine p.0 engine' item stack onto outcome rest out moved all ops,
              w'',
            )
      ]
