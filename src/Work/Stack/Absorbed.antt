-- ===== src/Work/Stack/Absorbed.antt =====
-- What absorbing checks.
use omoplata.Prelude.{
  ◌≡◌, ◌⊎◌, inl, inr, ℕ, ◌+◌, true, false, List, [], ◌∷◌, ok, err, length, ◌==◌, contains,
  string_eq, eq→eq, eq_self, Bool-cases, arith,
}
use mathlib.Core.Path.{subst}
use omoplata.Identity.Change.{ChangeId}
use omoplata.Work.Error.{unknown_change}
use omoplata.Work.Stack.{Stack, in_stack, absorb_loop, absorb}

-- Every target is in the stack, and the count goes up by one for each.
abbrev pub AllAbsorbed : Stack → ℕ → List ChangeId → Type 0
AllAbsorbed s n ts =
    (absorb_loop s n ts ≡ ok (n + length ts))
    × ((c : ChangeId) → contains ts c ≡ true → in_stack s c ≡ true)

-- Some target is not in the stack, and the error names such a one.
abbrev pub IsRefused : Stack → ℕ → List ChangeId → Type 0
IsRefused s n ts =
    (c : ChangeId) × (contains ts c ≡ true)
    × (in_stack s c ≡ false)
    × (absorb_loop s n ts ≡ err (unknown_change c))

in_stack-cons :
    (s : Stack) (t : ChangeId) (ts : List ChangeId)
    → in_stack s t ≡ true
    → ((c : ChangeId) → contains ts c ≡ true → in_stack s c ≡ true)
    → (c : ChangeId) → contains (t ∷ ts) c ≡ true
    → in_stack s c ≡ true
in_stack-cons s t ts here there c h = elim (Bool-cases (t == c)) [
  | inl same ↦ subst (λ x. in_stack s x ≡ true) (eq→eq t c same) here
  | inr other ↦ there c (ground arith)
]

absorb_loop-cases : (s : Stack) (n : ℕ) (ts : List ChangeId) → AllAbsorbed s n ts ⊎ IsRefused s n ts
unfolding absorb_loop
absorb_loop-cases s n [] = inl (ground arith, λ c h. absurd (cc (h)))
absorb_loop-cases s n (t ∷ ts) = elim (Bool-cases (in_stack s t)) [
  | inl here ↦ elim (absorb_loop-cases s (n + 1) ts) [
    | inl (counted, there) ↦ inl (ground arith, in_stack-cons s t ts here there)
    | inr (c, listed, missing, refused) ↦ inr (c, ground arith, missing, ground arith)
  ]
  | inr other ↦ inr (t, ground (arith, eq_self t), other, ground arith)
]

-- Absorbing either counts all the targets, and then each of them is in the stack, or it fails with
-- a target that is not in the stack.
pub absorb-cases :
    (s : Stack) (ts : List ChangeId)
    → ((absorb s ts ≡ ok (length ts))
        × ((c : ChangeId) → contains ts c ≡ true → in_stack s c ≡ true))
      ⊎ ((c : ChangeId) × (contains ts c ≡ true)
          × (in_stack s c ≡ false)
          × (absorb s ts ≡ err (unknown_change c)))
unfolding absorb
absorb-cases s ts = elim (absorb_loop-cases s 0 ts) [
  | inl (counted, all) ↦ inl (ground arith, all)
  | inr refused ↦ inr refused
]
