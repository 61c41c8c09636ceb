-- ===== src/Work/OpLog/Built.antt =====
-- Every log that appending and undoing build is numbered by place, and undoes only backwards.
use mathlib.Core.Path.{subst}
use omoplata.Prelude.{
  ◌≡◌, refl, sym, inl, inr, ℕ, suc, ◌+◌, ◌<◌, String, Bool, Option, none, some, List, [], ◌∷◌, ◌++◌,
  ok, ◌>>=◌, ok_or, length, length-append, nat_eq, eq→eq, Option-cases, arith,
}
use omoplata.Work.Error.{nothing_to_undo}
use omoplata.Work.OpLog.{
  OpKind, Operation, OpLog, new_log, undo_of, is_active, append_at, append, next_seq, u64_max,
  last_active, undo,
}
use omoplata.Work.OpLog.Activity.{IsLog, empty, next, IsLog-append}
use omoplata.Work.OpLog.Undo.{IsPlain, append-IsLog, last_active-append}
use omoplata.Work.OpLog.Folds.{late-active}

-- The logs that appending operations other than an undo, and undoing, build.
pub data IsBuilt : OpLog → Type 0 where
  starts : IsBuilt new_log
  appends :
      {log : OpLog} (kind : OpKind) (text : Option String)
      → IsPlain kind
      → IsBuilt log
      → IsBuilt (append log kind text)
  undoes_last : {log log' : OpLog} → undo log ≡ ok log' → IsBuilt log → IsBuilt log'

last_active-bound :
    (f : ℕ → Bool) (n seq : ℕ) (ops : List Operation)
    → IsLog n ops
    → last_active f ops ≡ some seq
    → seq < n + length ops
unfolding last_active
last_active-bound f n seq [] empty h = absurd (cc (h))
last_active-bound f n seq (op ∷ ops) (next e first rest) h =
    elim (Option-cases (last_active f ops)) [
      | inl missing ↦ ground arith
      | inr (s, at) ↦ let bound = last_active-bound f (suc n) s ops rest at in ground arith
    ]

bound-ok :
    (log log' : OpLog) (found : Option ℕ)
    → (ok_or found nothing_to_undo >>= λ target. ok (append log (undo_of target) none)) ≡ ok log'
    → (target : ℕ) × (found ≡ some target) × (log' ≡ append log (undo_of target) none)
bound-ok log log' none e = absurd (cc (e))
bound-ok log log' (some target) e = (target, refl, ground arith)

undo-parts :
    (log log' : OpLog)
    → undo log ≡ ok log'
    → (target : ℕ) × (last_active (λ seq. is_active log seq u64_max) log.ops ≡ some target)
      × (log' ≡ append log (undo_of target) none)
unfolding undo
undo-parts log log' e = bound-ok log log' (last_active (λ seq. is_active log seq u64_max) log.ops) e

append_undo-IsLog :
    (log : OpLog) (target : ℕ)
    → IsLog 0 log.ops
    → target < next_seq log
    → IsLog 0 (append log (undo_of target) none).ops
unfolding append append_at
append_undo-IsLog log target w before =
    IsLog-append log.ops
      (record { seq = next_seq log; kind = undo_of target; note = none; time = none }) w
      (omega arith) (λ t h. let same = eq→eq target t h in omega arith)

-- In every log that appending operations other than an undo, and undoing, build, each operation is
-- numbered by its place, and each undo names an operation before it.
pub IsBuilt-IsLog : {log : OpLog} → IsBuilt log → IsLog 0 log.ops
IsBuilt-IsLog starts = empty
IsBuilt-IsLog (appends {log} kind text plain b) = append-IsLog log kind text (IsBuilt-IsLog b) plain
IsBuilt-IsLog (undoes_last {log} {log'} e b) =
    let w = IsBuilt-IsLog b in
    let (target, at, same) = undo-parts log log' e in
    let bound = last_active-bound (λ seq. is_active log seq u64_max) 0 target log.ops w at in
    subst (λ (l : OpLog). IsLog 0 l.ops) (sym same)
      (append_undo-IsLog log target w (omega (arith, bound)))

-- Undo of a well-formed log that is not empty succeeds: it undoes the last entry, whatever that is.
pub undo-last :
    (ops : List Operation) (op : Operation)
    → IsLog 0 (ops ++ op ∷ [])
    → op.seq ≡ length ops
    → undo (record { ops = ops ++ op ∷ [] })
      ≡ ok (append (record { ops = ops ++ op ∷ [] }) (undo_of op.seq) none)
unfolding undo is_active
undo-last ops op w place =
    let log : OpLog = record { ops = ops ++ op ∷ [] } in
    rw (
      last_active-append (λ seq. is_active log seq u64_max) ops op
        (late-active u64_max (length log.ops + 1) op.seq log.ops w
          (rw (length-append ops (op ∷ [])) (omega arith))))
