-- ===== src/Work/Stack/Surgery.antt =====
-- The verbs on a stack undo one another, and succeed exactly inside the stack.
use omoplata.Prelude.{◌≡◌, refl, ap, ℕ, zero, suc, ◌<◌, List, [], ◌∷◌, ok, length, string_eq, arith}
use omoplata.Identity.Change.{ChangeId}
use omoplata.Work.Stack.{Stack, swap_next, remove_at, set_at, insert_at, reorder, fold, split}

length-swap_next : (cs : List ChangeId) (i : ℕ) → length (swap_next cs i) ≡ length cs
unfolding swap_next
length-swap_next (a ∷ b ∷ cs) zero = refl
length-swap_next (a ∷ []) zero = refl
length-swap_next [] zero = refl
length-swap_next (a ∷ cs) (suc i) = ap suc (length-swap_next cs i)
length-swap_next [] (suc i) = refl

swap_next-swap_next : (cs : List ChangeId) (i : ℕ) → swap_next (swap_next cs i) i ≡ cs
unfolding swap_next
swap_next-swap_next (a ∷ b ∷ cs) zero = refl
swap_next-swap_next (a ∷ []) zero = refl
swap_next-swap_next [] zero = refl
swap_next-swap_next (a ∷ cs) (suc i) = ap (λ xs. a ∷ xs) (swap_next-swap_next cs i)
swap_next-swap_next [] (suc i) = refl

remove_at-insert_at :
    (cs : List ChangeId) (i : ℕ) (a b c : ChangeId)
    → i < length cs
    → set_at (remove_at (insert_at (set_at cs i a) (suc i) b) (suc i)) i c ≡ set_at cs i c
unfolding remove_at insert_at set_at
remove_at-insert_at [] i a b c h = absurd (omega arith)
remove_at-insert_at (x ∷ cs) zero a b c h = refl
remove_at-insert_at (x ∷ cs) (suc i) a b c h =
    ap (λ xs. x ∷ xs) (remove_at-insert_at cs i a b c (omega arith))

length-split :
    (cs : List ChangeId) (i : ℕ) (a b : ChangeId)
    → i < length cs
    → length (insert_at (set_at cs i a) (suc i) b) ≡ suc (length cs)
unfolding insert_at set_at
length-split [] i a b h = absurd (omega arith)
length-split (x ∷ cs) zero a b h = refl
length-split (x ∷ cs) (suc i) a b h = ap suc (length-split cs i a b (omega arith))

-- Reordering the same pair twice gives the stack back: where the first call succeeds, the second
-- one does too.
pub reorder-reorder : (s s' : Stack) (i : ℕ) → reorder s i ≡ ok s' → reorder s' i ≡ ok s
unfolding reorder
reorder-reorder s s' i h =
    ground (arith, length-swap_next s.changes i, swap_next-swap_next s.changes i)

split_inside :
    (s s' : Stack) (i : ℕ) (first second : ChangeId)
    → split s i first second ≡ ok s'
    → i < length s.changes
unfolding split
split_inside s s' i first second h = ground arith

-- Folding the two changes of a split back into a change leaves the stack with that change in the
-- place of the one that was split; both calls succeed where the split does.
pub fold-split :
    (s s' : Stack) (i : ℕ) (first second into_change : ChangeId)
    → split s i first second ≡ ok s'
    → fold s' i into_change ≡ ok (record s { changes = set_at s.changes i into_change })
unfolding split fold
fold-split s s' i first second into_change h =
    let inside = split_inside s s' i first second h in
    ground (
      arith,
      length-split s.changes i first second inside,
      remove_at-insert_at s.changes i first second into_change inside,
    )
