-- ===== src/Tests/Autorebase.antt =====
-- The engine of automatic rebases at concrete inputs.
use omoplata.Prelude.{
  ◌≡◌, ◌⊎◌, refl, ap, ℕ, ◌+◌, ◌%◌, ◌≤◌, true, some, List, [], ◌∷◌, ◌++◌, length, replicate, get,
  ◌==◌, string_eq, Result, ok, if◌then◌else◌, arith,
}
use omoplata.Algebra.Doc.{from_lines, from_str, to_string}
use omoplata.Git.Bytes.{Bytes}
use omoplata.Identity.Change.{ChangeId, CommitId}
use omoplata.Identity.Change.WellFormed.{IsWellFormed, new-IsWellFormed}
use omoplata.Store.Repository.{Repository}
use omoplata.Work.Error.{WorkError}
use omoplata.Work.OpLog.{next_seq, refs_now, u64_max}
use omoplata.Work.OpLog.Activity.{IsLog, empty}
use omoplata.Work.Autorebase.{
  RebaseOutcome, RebaseEngine, StackItem, new_engine, store_doc, auto_rebase, auto_rebase_stack,
  history,
}
use omoplata.Store.Ids.{id_to_string, parse_id}
use omoplata.Git.Text.{find_byte, parse_usize, to_decimal}
use omoplata.Store.Text.{as_bytes, from_utf8}
use omoplata.Git.Bytes.{from_str_radix16, utf8_from}
use omoplata.Store.Repository.{read_object, write_object}
use omoplata.Store.Object.{deserialize, id_with, of_kind}
use omoplata.Git.Oid.{hex_encode}
use omoplata.Algebra.Doc.{from_str, to_string}
use omoplata.Prelude.{get, insert}
use omoplata.Work.Autorebase.{auto_rebase}
use omoplata.Identity.Change.{add_change, add_revision, register, supersede}
use omoplata.Algebra.Merge.{merge3}
use omoplata.Work.Autorebase.Axes.{auto_rebase-axes}
use omoplata.Work.Autorebase.Stacked.{stack_ops, auto_rebase_stack-ops}

-- A hash that adds up the bytes.
unfoldable pub sum : Bytes → ℕ
sum [] = 0
sum (b ∷ bytes) = b + sum bytes

unfoldable pub sum_hash : Bytes → Bytes
unfolding sum
sum_hash bytes = replicate 31 0 ++ (sum bytes % 256) ∷ []

abbrev empty_store : Repository
empty_store = record { files = [] }

with_base : Repository × CommitId
unfolding store_doc sum_hash
with_base = store_doc sum_hash empty_store (from_lines ("a" ∷ "b" ∷ []))

with_mine : Repository × CommitId
unfolding with_base
with_mine = store_doc sum_hash with_base.0 (from_lines ("a" ∷ "B" ∷ []))

with_onto : Repository × CommitId
unfolding with_mine
with_onto = store_doc sum_hash with_mine.0 (from_lines ("z" ∷ "a" ∷ "b" ∷ []))

with_top : Repository × CommitId
unfolding with_onto
with_top = store_doc sum_hash with_onto.0 (from_lines ("a" ∷ "B" ∷ "c" ∷ []))

engine : RebaseEngine
unfolding with_top
engine = new_engine with_top.0

ran : RebaseEngine × Result WorkError RebaseOutcome
unfolding engine auto_rebase
ran = auto_rebase sum_hash engine "c1" with_base.1 with_mine.1 with_onto.1

-- Both edits are in the new tip.
abbrev first_outcome : RebaseOutcome
first_outcome = record {
  new_tip = "sha256:0000000000000000000000000000000000000000000000000000000000000025";
  conflicts = [];
  clean = true;
}

ran-ok : ran.1 ≡ ok first_outcome
unfolding ran parse_id find_byte as_bytes from_utf8 utf8_from id_to_string write_object id_with
    hex_encode to_decimal to_string from_str_radix16 read_object get insert deserialize parse_usize
    of_kind auto_rebase from_str supersede add_change add_revision register merge3
ran-ok = refl

engine-IsWellFormed : IsWellFormed engine.graph
unfolding engine
engine-IsWellFormed = new-IsWellFormed

engine-IsLog : IsLog 0 engine.log.ops
unfolding engine
engine-IsLog = empty

engine-short : next_seq engine.log ≤ u64_max
unfolding engine
engine-short = omega arith

run :
    auto_rebase sum_hash engine "c1" with_base.1 with_mine.1 with_onto.1 ≡ (ran.0, ok first_outcome)
unfolding ran
run = ap (λ (r : Result WorkError RebaseOutcome). (ran.0, r)) ran-ok

auto_rebase-axes_example :
    (IsWellFormed ran.0.graph × IsLog 0 ran.0.log.ops)
    × (get (refs_now ran.0.log) "c1" ≡ some first_outcome.new_tip)
    × ((first_outcome.new_tip ≡ with_mine.1)
        ⊎ (get ran.0.graph.superseded_by with_mine.1 ≡ some first_outcome.new_tip))
    × ((c : ChangeId)
        → (history ran.0 c).rebases
          ≡ (history engine c).rebases
            ++ (if "c1" == c
                then record {
                  seq = next_seq engine.log;
                  old_tip = with_mine.1;
                  new_tip = first_outcome.new_tip;
                  onto = with_onto.1;
                  conflicts = length first_outcome.conflicts;
                }
                  ∷ []
                else []))
auto_rebase-axes_example =
    auto_rebase-axes sum_hash engine ran.0 "c1" with_base.1 with_mine.1 with_onto.1 first_outcome
      engine-IsWellFormed engine-IsLog engine-short run

abbrev two_changes : List StackItem
unfolding with_base with_mine with_top
two_changes =
    record { change = "c1"; base = with_base.1; tip = with_mine.1 }
    ∷ record { change = "c2"; base = with_mine.1; tip = with_top.1 }
    ∷ []

ran_stack : RebaseEngine × Result WorkError (List RebaseOutcome)
unfolding engine auto_rebase_stack two_changes
ran_stack = auto_rebase_stack sum_hash engine two_changes with_onto.1

abbrev second_outcome : RebaseOutcome
second_outcome = record {
  new_tip = "sha256:0000000000000000000000000000000000000000000000000000000000000094";
  conflicts = [];
  clean = true;
}

ran_stack-ok : ran_stack.1 ≡ ok (first_outcome ∷ second_outcome ∷ [])
unfolding ran_stack parse_id find_byte as_bytes from_utf8 utf8_from id_to_string write_object
    id_with hex_encode to_decimal to_string from_str_radix16 read_object get insert deserialize
    parse_usize of_kind auto_rebase from_str supersede add_change add_revision register merge3
ran_stack-ok = refl

run_stack :
    auto_rebase_stack sum_hash engine two_changes with_onto.1
    ≡ (ran_stack.0, ok (first_outcome ∷ second_outcome ∷ []))
unfolding ran_stack
run_stack = ap (λ (r : Result WorkError (List RebaseOutcome)). (ran_stack.0, r)) ran_stack-ok

auto_rebase_stack-ops_example :
    (length (first_outcome ∷ second_outcome ∷ []) ≡ length two_changes)
    × (ran_stack.0.log.ops
        ≡ engine.log.ops
          ++ stack_ops
              (next_seq engine.log)
              with_onto.1
              two_changes
              (first_outcome ∷ second_outcome ∷ []))
    × IsWellFormed ran_stack.0.graph
auto_rebase_stack-ops_example =
    auto_rebase_stack-ops sum_hash engine ran_stack.0 two_changes with_onto.1
      (first_outcome ∷ second_outcome ∷ []) engine-IsWellFormed run_stack
