-- ===== src/Work/OpLog/Undo.antt =====
-- Appending an operation applies it to the refs; undoing takes that back.
use mathlib.Core.Path.{subst}
use mathlib.Core.List.{append_assoc}
use omoplata.Prelude.{
  ◌≡◌, refl, ap, ◌∙◌, ℕ, suc, ◌+◌, ◌%◌, ◌<◌, ◌≤◌, String, Bool, true, false, Option, none, some,
  List, [], ◌∷◌, ◌++◌, ok, length, length-append, ◌==◌, nat_eq, eq→eq, eq_self, arith,
}
use omoplata.Work.OpLog.{
  OpKind, Operation, OpLog, undoes, undo_of, apply_op, active_undos, is_active_with, is_active,
  fold_refs, refs_now, append_at, append, next_seq, u64_max, last_active, undo,
}
use omoplata.Work.OpLog.Activity.{IsLog, IsLog-append, active_undos-append, active_undos-last}
use omoplata.Work.OpLog.Folds.{fold_loop-active, fold_loop-inactive, late-active, fold_refs-tail}

pub last_active-append :
    (f : ℕ → Bool) (ops : List Operation) (op : Operation)
    → f op.seq ≡ true
    → last_active f (ops ++ op ∷ []) ≡ some op.seq
unfolding last_active
last_active-append f [] op h = ground arith
last_active-append f (o ∷ ops) op h = ground (arith, last_active-append f ops op h)

-- The operation is not an undo.
abbrev pub IsPlain : OpKind → Type 0
IsPlain kind = (t : ℕ) → undoes kind t ≡ false

pub next_seq-append :
    (log : OpLog) (kind : OpKind) (text : Option String)
    → next_seq (append log kind text) ≡ suc (next_seq log)
unfolding append append_at
next_seq-append log kind text =
    let op : Operation = record { seq = next_seq log; kind = kind; note = text; time = none } in
    rw (length-append log.ops (op ∷ [])) (omega arith)

abbrev pub op_of : OpLog → OpKind → Option String → Operation
op_of log kind text = record { seq = next_seq log; kind = kind; note = text; time = none }

abbrev pub undo_op : OpLog → Operation
undo_op log = record {
  seq = suc (next_seq log);
  kind = undo_of (next_seq log);
  note = none;
  time = none;
}

module _ (log : OpLog) (kind : OpKind) (text : Option String) (w : IsLog 0 log.ops)
    (plain : IsPlain kind) where
  append-ops : (append log kind text).ops ≡ log.ops ++ op_of log kind text ∷ []
  unfolding append append_at
  append-ops = refl

  pub append-IsLog : IsLog 0 (append log kind text).ops
  unfolding append append_at
  append-IsLog =
      IsLog-append log.ops (op_of log kind text) w (omega arith) (λ t h. absurd (cc (h, plain t)))

  op-quiet : (f : ℕ → Bool) (s : ℕ) → active_undos f s u64_max (op_of log kind text ∷ []) ≡ 0
  unfolding active_undos
  op-quiet f s = ground (arith, plain s)

  new_is_active : is_active (append log kind text) (next_seq log) u64_max ≡ true
  unfolding is_active
  new_is_active =
      late-active u64_max (length (append log kind text).ops + 1) (next_seq log)
        (append log kind text).ops append-IsLog
        (rw (append-ops, length-append log.ops (op_of log kind text ∷ [])) (omega arith))

  -- An operation other than an undo, appended to a well-formed log whose next number fits a word,
  -- is applied to the refs that the log had.
  pub refs_now-append :
      next_seq log ≤ u64_max → refs_now (append log kind text) ≡ apply_op kind (refs_now log)
  unfolding refs_now append append_at
  refs_now-append short =
      fold_refs-tail u64_max log.ops (op_of log kind text ∷ []) w (omega arith)
        (λ f s lo. op-quiet f s)
      ∙ fold_loop-active u64_max (λ s. is_active (append log kind text) s u64_max)
          (op_of log kind text) [] (refs_now log) short new_is_active

  undo-finds :
      undo (append log kind text) ≡ ok (append (append log kind text) (undo_of (next_seq log)) none)
  unfolding undo
  undo-finds = rw (
      last_active-append (λ seq. is_active (append log kind text) seq u64_max) log.ops
        (op_of log kind text) new_is_active)

  undone : OpLog
  undone = append (append log kind text) (undo_of (next_seq log)) none

  undone-ops : undone.ops ≡ log.ops ++ op_of log kind text ∷ undo_op log ∷ []
  unfolding append append_at undone
  undone-ops =
      ap
        (λ n.
          (log.ops ++ op_of log kind text ∷ [])
          ++ record { seq = n; kind = undo_of (next_seq log); note = none; time = none } ∷ [])
        (next_seq-append log kind text)
      ∙ append_assoc log.ops (op_of log kind text ∷ []) (undo_op log ∷ [])

  undone-IsLog : IsLog 0 (log.ops ++ op_of log kind text ∷ undo_op log ∷ [])
  unfolding undone append append_at
  undone-IsLog = subst (IsLog 0) undone-ops (
      IsLog-append (append log kind text).ops
        (record {
          seq = next_seq (append log kind text);
          kind = undo_of (next_seq log);
          note = none;
          time = none;
        })
        append-IsLog (omega arith)
        (λ t h.
          let same = eq→eq (next_seq log) t h in
          let more = next_seq-append log kind text in omega arith))

  undone-quiet :
      (f : ℕ → Bool) (s : ℕ)
      → s < next_seq log
      → active_undos f s u64_max (op_of log kind text ∷ undo_op log ∷ []) ≡ 0
  unfolding active_undos
  undone-quiet f s lo = ground (arith, plain s, eq→eq (next_seq log) s)

  undone-once :
      (f : ℕ → Bool)
      → suc (next_seq log) ≤ u64_max
      → f (suc (next_seq log)) ≡ true
      → active_undos f (next_seq log) u64_max (op_of log kind text ∷ undo_op log ∷ []) ≡ 1
  unfolding active_undos
  undone-once f short on = ground (arith, plain (next_seq log), eq_self (next_seq log))

  undone-inactive :
      (fuel : ℕ)
      → suc (next_seq log) ≤ u64_max
      → is_active_with
          (suc fuel)
          (log.ops ++ op_of log kind text ∷ undo_op log ∷ [])
          (next_seq log)
          u64_max
        ≡ false
  unfolding is_active_with
  undone-inactive fuel short =
      let ops = log.ops ++ op_of log kind text ∷ undo_op log ∷ [] in
      let f : ℕ → Bool = λ s. is_active_with fuel ops s u64_max in
      let both = op_of log kind text ∷ undo_op log ∷ [] in
      let split = active_undos-append u64_max f (next_seq log) 0 log.ops both w (omega arith) in
      let before = active_undos-last u64_max f (next_seq log) 0 log.ops w (omega arith) in
      let after = undone-once f short (
        late-active u64_max fuel (suc (next_seq log)) ops undone-IsLog
          (rw (length-append log.ops both) (omega arith))) in
      let one : active_undos f (next_seq log) u64_max ops ≡ 1 = omega arith in
      ap (λ c. c % 2 == 0) one

  undone-refs : suc (next_seq log) ≤ u64_max → refs_now undone ≡ refs_now log
  unfolding refs_now is_active
  undone-refs short =
      let both = op_of log kind text ∷ undo_op log ∷ [] in
      let f : ℕ → Bool = λ s. is_active (record { ops = log.ops ++ both }) s u64_max in
      ap (λ ops. fold_refs (record { ops = ops }) u64_max) undone-ops
      ∙ fold_refs-tail u64_max log.ops both w (omega arith) undone-quiet
      ∙ fold_loop-inactive u64_max f (op_of log kind text) (undo_op log ∷ []) (refs_now log)
          (omega arith)
          (ap (λ fuel. is_active_with fuel (log.ops ++ both) (next_seq log) u64_max)
              {y = suc (length (log.ops ++ both))} (omega arith)
            ∙ undone-inactive (length (log.ops ++ both)) short)
      ∙ fold_loop-active u64_max f (undo_op log) [] (refs_now log) short (
          late-active u64_max (length (log.ops ++ both) + 1) (suc (next_seq log)) (log.ops ++ both)
            undone-IsLog (rw (length-append log.ops both) (omega arith)))

  -- Undo right after an operation other than an undo, on a well-formed log whose next two numbers
  -- fit a word, succeeds, appends one operation and keeps the rest of the log, and the refs are
  -- those from before the operation.
  pub undo-append :
      suc (next_seq log) ≤ u64_max
      → (log' : OpLog) × (undo (append log kind text) ≡ ok log')
        × (log'.ops ≡ log.ops ++ op_of log kind text ∷ undo_op log ∷ [])
        × (refs_now log' ≡ refs_now log)
  unfolding undone
  undo-append short = (undone, undo-finds, undone-ops, undone-refs short)
