-- ===== src/Work/Stack.antt =====
-- crates/omoplata-work/src/stack.rs: a linear chain of draft changes and its surgery.
pub mod Surgery
pub mod Absorbed
use omoplata.Prelude.{
  ℕ, zero, suc, ◌+◌, String, Bool, true, false, List, [], ◌∷◌, ◌++◌, Result, ok, err, length, leb,
  contains, string_eq, if◌then◌else◌,
}
use omoplata.Identity.Change.{ChangeId}
use omoplata.Work.Error.{WorkError, unknown_change, invalid_stack_index}

pub record Stack : Type 0 where
  pub name : String
  pub changes : List ChangeId

abbrev pub in_stack : Stack → ChangeId → Bool
in_stack s change = contains s.changes change

unfoldable pub push : Stack → ChangeId → Stack
push s change = if in_stack s change then s else record s { changes = s.changes ++ change ∷ [] }

-- `Vec::swap(i, i + 1)`, where both are in range.
unfoldable pub swap_next : List ChangeId → ℕ → List ChangeId
swap_next (a ∷ b ∷ cs) zero = b ∷ a ∷ cs
swap_next (a ∷ cs) (suc i) = a ∷ swap_next cs i
swap_next cs zero = cs
swap_next [] (suc i) = []

-- `Vec::remove`, where the index is in range.
unfoldable pub remove_at : List ChangeId → ℕ → List ChangeId
remove_at [] i = []
remove_at (c ∷ cs) zero = cs
remove_at (c ∷ cs) (suc i) = c ∷ remove_at cs i

-- `v[i] = c`, where the index is in range.
unfoldable pub set_at : List ChangeId → ℕ → ChangeId → List ChangeId
set_at [] i d = []
set_at (c ∷ cs) zero d = d ∷ cs
set_at (c ∷ cs) (suc i) d = c ∷ set_at cs i d

-- `Vec::insert`, where the index is at most the length.
unfoldable pub insert_at : List ChangeId → ℕ → ChangeId → List ChangeId
insert_at cs zero d = d ∷ cs
insert_at [] (suc i) d = d ∷ []
insert_at (c ∷ cs) (suc i) d = c ∷ insert_at cs i d

unfoldable pub reorder : Stack → ℕ → Result WorkError Stack
reorder s i =
    if leb (length s.changes) (i + 1)
    then err (invalid_stack_index i)
    else ok (record s { changes = swap_next s.changes i })

unfoldable pub fold : Stack → ℕ → ChangeId → Result WorkError Stack
fold s i into_change =
    if leb (length s.changes) (i + 1)
    then err (invalid_stack_index i)
    else ok (record s { changes = set_at (remove_at s.changes (i + 1)) i into_change })

unfoldable pub split : Stack → ℕ → ChangeId → ChangeId → Result WorkError Stack
split s i first second =
    if leb (length s.changes) i
    then err (invalid_stack_index i)
    else ok (record s { changes = insert_at (set_at s.changes i first) (i + 1) second })

-- The loop of `absorb`, with the count so far.
unfoldable pub absorb_loop : Stack → ℕ → List ChangeId → Result WorkError ℕ
absorb_loop s absorbed_count [] = ok absorbed_count
absorb_loop s absorbed_count (change ∷ rest) =
    let more = absorb_loop s (absorbed_count + 1) rest in
    if in_stack s change then more else err (unknown_change change)

unfoldable pub absorb : Stack → List ChangeId → Result WorkError ℕ
unfolding absorb_loop
absorb s target_changes = absorb_loop s 0 target_changes
