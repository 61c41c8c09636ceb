-- ===== src/Algebra/Commute/Conflicts.antt =====
-- The conflict test on hunks: its symmetry, and what it says of hunks that it keeps apart.
use mathlib.Core.Path.{ap₂}
use omoplata.Prelude.{
  ℕ, ◌≤◌, ◌≡◌, refl, true, not, ◌&&◌, List, [], ◌∷◌, All, all, map, arith, le→leb,
}
use omoplata.Prelude.Int.{ℤ, pos, ◌+ℤ◌, eq_of_parts, int_laws}
use omoplata.Algebra.Patch.{Hunk, support_end, delta, delta_sum}
use omoplata.Algebra.Commute.{hunks_conflict, shifted, move, disjoint}

-- The two hunks may be given in either order.
pub hunks_conflict_comm : (h k : Hunk) → hunks_conflict h k ≡ hunks_conflict k h
unfolding hunks_conflict
hunks_conflict_comm h k = ground arith

-- What keeps `h` apart from `k ∷ ks` keeps it apart from `ks`.
pub apart_rest :
    (h k : Hunk) (ks : List Hunk)
    → all (λ k'. not (hunks_conflict h k')) (k ∷ ks) ≡ true
    → all (λ k'. not (hunks_conflict h k')) ks ≡ true
apart_rest h k ks apart = ground arith

pub disjoint-nil : (hs : List Hunk) → disjoint hs [] ≡ true
disjoint-nil [] = refl
disjoint-nil (h ∷ hs) = disjoint-nil hs

pub disjoint-cons :
    (hs : List Hunk) (k : Hunk) (ks : List Hunk)
    → disjoint hs (k ∷ ks) ≡ (all (λ h. not (hunks_conflict k h)) hs && disjoint hs ks)
disjoint-cons [] k ks = refl
disjoint-cons (h ∷ hs) k ks = ground (arith, disjoint-cons hs k ks, hunks_conflict_comm h k)

pub disjoint_comm : (hs ks : List Hunk) → disjoint hs ks ≡ disjoint ks hs
disjoint_comm hs [] = disjoint-nil hs
disjoint_comm hs (k ∷ ks) = ground (arith, disjoint-cons hs k ks, disjoint_comm hs ks)

abbrev pub Behind : ℕ → List Hunk → Type 0
Behind e = All (λ k. e ≤ k.base_start)

-- Hunks that stand behind `h`, and do not conflict with it, move nothing at the start of `h`.
pub delta_sum-Behind :
    (h : Hunk) (ks : List Hunk)
    → all (λ k. not (hunks_conflict h k)) ks ≡ true
    → Behind (support_end h) ks
    → delta_sum ks h.base_start ≡ pos 0
unfolding delta_sum hunks_conflict
delta_sum-Behind h [] apart behind = refl
delta_sum-Behind h (k ∷ ks) apart (first, behind) =
    ground (arith, delta_sum-Behind h ks (apart_rest h k ks apart) behind)

shift_past :
    (D : ℤ) (h : Hunk) (hs : List Hunk) (s : ℕ)
    → support_end h ≤ s
    → D +ℤ delta_sum (h ∷ hs) s ≡ D +ℤ delta h +ℤ delta_sum hs s
unfolding delta_sum
shift_past D h hs s behind = rw (le→leb _ _ behind) (eq_of_parts _ _ (omega int_laws))

-- Behind `h`, the shift by `h` and the hunks after it is the shift by those, begun at the delta of `h`.
pub map-move-Behind :
    (D : ℤ) (h : Hunk) (hs ks : List Hunk)
    → Behind (support_end h) ks
    → map (move (λ s. D +ℤ delta_sum (h ∷ hs) s)) ks
      ≡ map (move (λ s. D +ℤ delta h +ℤ delta_sum hs s)) ks
map-move-Behind D h hs [] behind = refl
map-move-Behind D h hs (k ∷ ks) (first, behind) =
    ap₂ (λ z l. record k { base_start = shifted k.base_start z } ∷ l)
      (shift_past D h hs k.base_start first) (map-move-Behind D h hs ks behind)
