-- ===== src/Tests/Work.antt =====
-- The operation log, the stacks and the landing queues at concrete inputs.
use omoplata.Prelude.{string_eq, ◌≡◌, refl, none, some, [], ◌∷◌, ◌++◌, ok, arith}
use omoplata.Work.OpLog.{OpLog, OpKind, Operation, new_log, set_ref, append, refs_now, undo}
use omoplata.Work.OpLog.Activity.{IsLog, empty}
use omoplata.Work.OpLog.Undo.{IsPlain, op_of, undo_op, undo-append}
use omoplata.Work.OpLog.Built.{starts, appends, IsBuilt-IsLog}
use omoplata.Work.Stack.{Stack, reorder, fold, split, swap_next, set_at, insert_at}
use omoplata.Work.Stack.Surgery.{fold-split}

abbrev main_to_a : OpKind
main_to_a = set_ref "main" none (some "a")

main_to_a-IsPlain : IsPlain main_to_a
main_to_a-IsPlain t = refl

undo-append_example :
    (log' : OpLog) × (undo (append new_log main_to_a none) ≡ ok log')
    × (log'.ops ≡ new_log.ops ++ op_of new_log main_to_a none ∷ undo_op new_log ∷ [])
    × (refs_now log' ≡ refs_now new_log)
undo-append_example = undo-append new_log main_to_a none empty main_to_a-IsPlain (omega arith)

abbrev stack : Stack
stack = record { name = "s"; changes = "c1" ∷ "c2" ∷ "c3" ∷ [] }

abbrev swapped : Stack
swapped = record { name = "s"; changes = "c1" ∷ "c3" ∷ "c2" ∷ [] }

abbrev parted : Stack
parted = record { name = "s"; changes = "c1" ∷ "x" ∷ "y" ∷ "c3" ∷ [] }

swaps : reorder stack 1 ≡ ok swapped
unfolding reorder swap_next
swaps = refl

parts : split stack 1 "x" "y" ≡ ok parted
unfolding split set_at insert_at
parts = refl

fold-split_example : fold parted 1 "z" ≡ ok (record stack { changes = set_at stack.changes 1 "z" })
fold-split_example = fold-split stack parted 1 "x" "y" "z" parts

abbrev one_op : Operation
one_op = op_of new_log main_to_a none

one_op-IsLog : IsLog 0 ([] ++ one_op ∷ [])
unfolding append
one_op-IsLog = IsBuilt-IsLog (appends main_to_a none main_to_a-IsPlain starts)
