-- ===== src/Work/OpLog.antt =====
-- crates/omoplata-work/src/oplog.rs: the operation log, undo, and the refs it folds to. A `u64`
-- sequence number is an index of the log, so it is a number here; `u64::MAX` is `u64_max`.
pub mod Activity
pub mod Folds
pub mod Undo
pub mod Built
use omoplata.Prelude.{
  ℕ, zero, suc, ◌+◌, ◌-◌, ◌^◌, ◌%◌, String, Bool, true, false, Option, none, some, List, [], ◌∷◌,
  ◌++◌, Result, ok, err, ◌>>=◌, ok_or, ◌==◌, nat_eq, string_eq, Assoc, get, insert, remove, length,
  ltb, if◌then◌else◌,
}
use omoplata.Identity.Change.{ChangeId, CommitId, Phase}
use omoplata.Work.Error.{WorkError, nothing_to_undo}

pub data OpKind : Type 0 where
  set_ref : (name : String) (old new : Option CommitId) → OpKind
  set_phase : (change : ChangeId) (from to : Phase) → OpKind
  rebase : (change : ChangeId) (old_tip new_tip onto : CommitId) (conflicts : ℕ) → OpKind
  commit :
      (workspace : String) (change : ChangeId) (tree : CommitId) (parent : Option CommitId)
      (message : Option String)
      → OpKind
  switch :
      (workspace : String) (change : ChangeId) (from : Option CommitId) (to : CommitId) → OpKind
  undo_of : (target_seq : ℕ) → OpKind

pub record Operation : Type 0 where
  pub seq : ℕ
  pub kind : OpKind
  pub note : Option String
  pub time : Option String

pub record OpLog : Type 0 where
  pub ops : List Operation

abbrev pub new_log : OpLog
new_log = record { ops = [] }

abbrev pub Refs : Type 0
Refs = Assoc String CommitId

abbrev pub next_seq : OpLog → ℕ
next_seq log = length log.ops

unfoldable pub append_at : OpLog → OpKind → Option String → Option String → OpLog
append_at log kind note time = record {
  ops = log.ops ++ record { seq = next_seq log; kind = kind; note = note; time = time } ∷ [];
}

unfoldable pub append : OpLog → OpKind → Option String → OpLog
unfolding append_at
append log kind note = append_at log kind note none

abbrev pub u64_max : ℕ
u64_max = 2 ^ 64 - 1

-- `if let OpKind::Undo { target_seq } = op.kind { target_seq == seq … }`
abbrev pub undoes : OpKind → ℕ → Bool
undoes (undo_of target) seq = target == seq
undoes _ seq = false

-- The loop of `is_active`, which asks `active` about each operation that undoes `seq`.
unfoldable pub active_undos : (ℕ → Bool) → ℕ → ℕ → List Operation → ℕ
active_undos active seq limit [] = 0
active_undos active seq limit (op ∷ ops) =
    let more = active_undos active seq limit ops in
    let here : ℕ = elim (undoes op.kind seq) [
      | true ↦ if active op.seq then 1 else 0
      | false ↦ 0
    ] in
    if ltb limit op.seq then 0 else here + more

-- The fuel bounds the depth of undos of undos.
unfoldable pub is_active_with : ℕ → List Operation → ℕ → ℕ → Bool
unfolding active_undos
is_active_with zero ops seq limit = true
is_active_with (suc fuel) ops seq limit =
    active_undos (λ s. is_active_with fuel ops s limit) seq limit ops % 2 == 0

unfoldable pub is_active : OpLog → ℕ → ℕ → Bool
unfolding is_active_with
is_active log seq limit = is_active_with (length log.ops + 1) log.ops seq limit

-- What an active operation does to the refs.
unfoldable pub apply_op : OpKind → Refs → Refs
apply_op (set_ref name old (some new)) refs = insert refs name new
apply_op (set_ref name old none) refs = remove refs name
apply_op (set_phase change from to) refs = refs
apply_op (rebase change old_tip new_tip onto conflicts) refs = insert refs change new_tip
apply_op (commit workspace change tree parent message) refs = insert refs change tree
apply_op (switch workspace change from to) refs = insert refs change to
apply_op (undo_of target) refs = refs

-- The loop of `fold_refs`.
unfoldable pub fold_loop : (ℕ → Bool) → ℕ → List Operation → Refs → Refs
unfolding apply_op
fold_loop active limit [] refs = refs
fold_loop active limit (op ∷ ops) refs =
    let rest = fold_loop active limit ops (if active op.seq then apply_op op.kind refs else refs) in
    if ltb limit op.seq then refs else rest

unfoldable pub fold_refs : OpLog → ℕ → Refs
unfolding fold_loop is_active
fold_refs log limit = fold_loop (λ seq. is_active log seq limit) limit log.ops []

unfoldable pub refs_now : OpLog → Refs
unfolding fold_refs
refs_now log = fold_refs log u64_max

abbrev pub refs_at : OpLog → ℕ → Refs
refs_at log seq = fold_refs log seq

unfoldable pub set_ref_now : OpLog → String → Option CommitId → Option String → OpLog
unfolding refs_now append
set_ref_now log name new note = append log (set_ref name (get (refs_now log) name) new) note

-- The last operation that is active.
unfoldable pub last_active : (ℕ → Bool) → List Operation → Option ℕ
last_active active [] = none
last_active active (op ∷ ops) = elim (last_active active ops) [
  | some seq ↦ some seq
  | none ↦ if active op.seq then some op.seq else none
]

unfoldable pub undo : OpLog → Result WorkError OpLog
unfolding last_active is_active append
undo log = do
  target ← ok_or (last_active (λ seq. is_active log seq u64_max) log.ops) nothing_to_undo
  ok (append log (undo_of target) none)
