-- ===== src/Store/Trees/Order.antt =====
-- The order of the names of a tree's entries.
use Prim.Native.Nat.{Ordering}
use omoplata.Prelude.{◌≡◌, ◌⊎◌, refl, inl, inr, [], ◌∷◌, nat_eq, list_eq, arith}
use omoplata.Git.Bytes.{Bytes}
use omoplata.Store.Trees.{cmp}

pub Ordering-cases : (o : Ordering) → (o ≡ Ordering.lt) ⊎ ((o ≡ Ordering.eq) ⊎ (o ≡ Ordering.gt))
Ordering-cases Ordering.lt = inl refl
Ordering-cases Ordering.eq = inr (inl refl)
Ordering-cases Ordering.gt = inr (inr refl)

pub cmp_self : (a : Bytes) → cmp a a ≡ Ordering.eq
unfolding cmp
cmp_self [] = refl
cmp_self (x ∷ a) = ground (arith, cmp_self a)

pub cmp_eq : (a b : Bytes) → cmp a b ≡ Ordering.eq → a ≡ b
unfolding cmp
cmp_eq [] [] h = refl
cmp_eq [] (y ∷ b) h = absurd (cc (h))
cmp_eq (x ∷ a) [] h = absurd (cc (h))
cmp_eq (x ∷ a) (y ∷ b) h = ground (arith, cmp_eq a b)

pub cmp_gt : (a b : Bytes) → cmp a b ≡ Ordering.gt → cmp b a ≡ Ordering.lt
unfolding cmp
cmp_gt [] [] h = absurd (cc (h))
cmp_gt [] (y ∷ b) h = absurd (cc (h))
cmp_gt (x ∷ a) [] h = refl
cmp_gt (x ∷ a) (y ∷ b) h = ground (arith, cmp_gt a b)

pub cmp_trans :
    (a b c : Bytes) → cmp a b ≡ Ordering.lt → cmp b c ≡ Ordering.lt → cmp a c ≡ Ordering.lt
unfolding cmp
cmp_trans [] [] c h k = absurd (cc (h))
cmp_trans [] (y ∷ b) [] h k = absurd (cc (k))
cmp_trans [] (y ∷ b) (z ∷ c) h k = refl
cmp_trans (x ∷ a) [] c h k = absurd (cc (h))
cmp_trans (x ∷ a) (y ∷ b) [] h k = absurd (cc (k))
cmp_trans (x ∷ a) (y ∷ b) (z ∷ c) h k = ground (arith, cmp_trans a b c)

pub cmp_lt : (a b : Bytes) → cmp a b ≡ Ordering.lt → cmp b a ≡ Ordering.gt
cmp_lt a b h = elim (Ordering-cases (cmp b a)) [
  | inl below ↦ absurd (cc (cmp_self a, cmp_trans a b a h below))
  | inr (inl same) ↦ absurd (cc (h, cmp_eq b a same, cmp_self a))
  | inr (inr above) ↦ above
]
