-- ===== src/Algebra/Commute/Diamond.antt =====
-- Two patches of one base that are kept apart by the check can be applied in either order.
use mathlib.Core.List.{append_assoc}
use omoplata.Prelude.{
  ℕ, ◌+◌, ◌≤◌, ◌≡◌, refl, sym, ap, ◌∙◌, String, true, not, inl, inr, ◌⊎◌, List, [], ◌∷◌, ◌++◌, all,
  map, arith, length, length-append,
}
use omoplata.Prelude.Int.{ℤ, pos, pos_part, neg_part, ◌+ℤ◌, parts_normal, int_laws}
use omoplata.Algebra.Patch.{Hunk, support_end, delta, delta_sum}
use omoplata.Algebra.Patch.Applies.{Applies, done, step}
use omoplata.Algebra.Patch.Diff.{Applies-keep}
use omoplata.Algebra.Commute.{hunks_conflict, move, shifted, disjoint}
use omoplata.Algebra.Commute.Conflicts.{
  disjoint_comm, disjoint-nil, Behind, delta_sum-Behind, map-move-Behind,
}

-- A list in two ways a longer prefix and a rest.
append-split :
    (xs ys us vs : List String)
    → xs ++ us ≡ ys ++ vs
    → length xs ≤ length ys
    → (mid : List String) × (ys ≡ xs ++ mid) × (us ≡ mid ++ vs)
append-split [] ys us vs e h = (ys, refl, e)
append-split (x ∷ xs) [] us vs e h = absurd (omega arith)
append-split (x ∷ xs) (y ∷ ys) us vs e h =
    let (mid, p, q) = append-split xs ys us vs (cc) (omega arith) in (mid, cc, q)

abbrev Starts : ℕ → List Hunk → Type 0
Starts e [] = Unit
Starts e (k ∷ ks) = e ≤ k.base_start

-- Hunks that start behind a prefix of the lines leave the prefix alone.
Applies-skip :
    (pre rest : List String) (ks : List Hunk) {at e : ℕ} {old new : List String}
    → Applies ks at old new
    → old ≡ pre ++ rest
    → e ≡ at + length pre
    → Starts e ks
    → (new' : List String) × (new ≡ pre ++ new') × Applies ks e rest new'
Applies-skip pre rest [] (done same) eq at_e h = (rest, sym same ∙ eq, done refl)
Applies-skip pre rest (k ∷ ks) (step kept old' new' start eq_old eq_new more) eq at_e h =
    let (mid, p, q) =
      append-split pre kept rest (k.remove ++ old') (sym eq ∙ eq_old) (omega arith) in
    (
      mid ++ (k.insert ++ new'),
      eq_new ∙ ap (λ l. l ++ (k.insert ++ new')) p ∙ append_assoc pre mid (k.insert ++ new'),
      step mid old' new' (omega (arith, ap length p, length-append pre mid)) q refl more,
    )

Behind-lower : (e e' : ℕ) (ks : List Hunk) → e ≤ e' → Behind e' ks → Behind e ks
Behind-lower e e' [] h b = tt
Behind-lower e e' (k ∷ ks) h (first, b) = (omega arith, Behind-lower e e' ks h b)

Applies-Behind :
    (ks : List Hunk) {at : ℕ} {old new : List String} → Applies ks at old new → Behind at ks
Applies-Behind [] a = tt
Applies-Behind (k ∷ ks) {at} (step kept old' new' start eq_old eq_new more) =
    (omega arith, Behind-lower at (support_end k) ks (omega arith) (Applies-Behind ks more))

-- The two documents `u` and `v` that `hs` and `ks` lead to have a common successor, to which
-- `ks` leads from `u` and `hs` from `v`, each with its starts moved past the other.
abbrev pub Meets : List Hunk → List Hunk → ℕ → ℕ → ℤ → ℤ → List String → List String → Type 0
Meets hs ks at_u at_v D E u v =
    (w : List String) × Applies (map (move (λ s. D +ℤ delta_sum hs s)) ks) at_u u w
    × Applies (map (move (λ s. E +ℤ delta_sum ks s)) hs) at_v v w

Meets-sym :
    (hs ks : List Hunk) (at_u at_v : ℕ) (D E : ℤ) {u v : List String}
    → Meets ks hs at_v at_u E D v u
    → Meets hs ks at_u at_v D E u v
Meets-sym hs ks at_u at_v D E (w, a, b) = (w, b, a)

-- The line `at` of the base stands at the line `at_u` of a document that is `D` lines longer.
abbrev pub IsMoved : ℕ → ℤ → ℕ → Type 0
IsMoved at D at_u = at_u + neg_part D ≡ at + pos_part D

-- A start that no hunk of the other patch precedes moves by what is behind it.
shifted_start :
    (at at_v n : ℕ) (E z : ℤ) → IsMoved at E at_v → z ≡ pos 0 → shifted (at + n) (E +ℤ z) ≡ at_v + n
shifted_start at at_v n E z moved e =
    rw e (omega (int_laws, parts_normal (pos (at + n) +ℤ (E +ℤ pos 0))))

module _ (h : Hunk) (hs ks : List Hunk) (at at_u at_v : ℕ) (D E : ℤ) {old u v : List String} where
  -- The hunk `h` comes first: both sides keep the lines before it, and go on behind it.
  first_step :
      Applies (h ∷ hs) at old u
      → Applies ks at old v
      → Starts (support_end h) ks
      → all (λ k. not (hunks_conflict h k)) ks ≡ true
      → IsMoved at D at_u
      → IsMoved at E at_v
      → ((at_u' at_v' : ℕ) (old' u' v' : List String)
          → Applies hs (support_end h) old' u'
          → Applies ks (support_end h) old' v'
          → IsMoved (support_end h) (D +ℤ delta h) at_u'
          → IsMoved (support_end h) E at_v'
          → Meets hs ks at_u' at_v' (D +ℤ delta h) E u' v')
      → Meets (h ∷ hs) ks at_u at_v D E u v
  unfolding delta
  first_step (step kept old' u' start eq_old eq_u rest) b starts apart moved_u moved_v onward =
      let (v', eq_v, b') =
        Applies-skip (kept ++ h.remove) old' ks b (eq_old ∙ sym (append_assoc kept h.remove old'))
          (omega (arith, length-append kept h.remove)) starts in
      let (w, p, q) =
        onward (at_u + length (kept ++ h.insert)) (at_v + length (kept ++ h.remove)) old' u' v' rest
          b' (omega (int_laws, length-append kept h.insert))
          (omega (arith, length-append kept h.remove)) in
      let behind = Applies-Behind ks b' in
      let start_v : shifted h.base_start (E +ℤ delta_sum ks h.base_start) ≡ at_v + length kept =
        let z = delta_sum-Behind h ks apart behind in
        (ap (λ n. shifted n (E +ℤ delta_sum ks h.base_start)) start
          ∙ shifted_start at at_v (length kept) E (delta_sum ks h.base_start) moved_v z) in
      let end_v : shifted h.base_start (E +ℤ delta_sum ks h.base_start) + length h.remove
          ≡ at_v + length (kept ++ h.remove) =
        omega (arith, start_v, length-append kept h.remove) in
      (
        (kept ++ h.insert) ++ w,
        rw (map-move-Behind D h hs ks behind, eq_u, ← append_assoc kept h.insert u')
            (Applies-keep (kept ++ h.insert) refl p),
        step kept v' w start_v (eq_v ∙ append_assoc kept h.remove v') (append_assoc kept h.insert w)
            (rw end_v q),
      )

-- Hunks that do not conflict are ordered.
apart_order :
    (h k : Hunk)
    → not (hunks_conflict h k) ≡ true
    → (support_end h ≤ k.base_start) ⊎ (support_end k ≤ h.base_start)
unfolding hunks_conflict
apart_order h k apart = ground arith

disjoint_parts :
    (h : Hunk) (hs ks : List Hunk)
    → disjoint (h ∷ hs) ks ≡ true
    → (all (λ k. not (hunks_conflict h k)) ks ≡ true) × (disjoint hs ks ≡ true)
disjoint_parts h hs ks apart = ground arith

disjoint-sym : (hs ks : List Hunk) → disjoint hs ks ≡ true → disjoint ks hs ≡ true
disjoint-sym hs ks apart = rw (disjoint_comm hs ks) at apart

head_apart :
    (h k : Hunk) (ks : List Hunk)
    → all (λ k'. not (hunks_conflict h k')) (k ∷ ks) ≡ true
    → not (hunks_conflict h k) ≡ true
head_apart h k ks apart = ground arith

-- Patches that the check keeps apart meet, from any point of the base that both have reached.
pub diamond :
    (hs ks : List Hunk) (at at_u at_v : ℕ) (D E : ℤ) {old u v : List String}
    → disjoint hs ks ≡ true
    → IsMoved at D at_u
    → IsMoved at E at_v
    → Applies hs at old u
    → Applies ks at old v
    → Meets hs ks at_u at_v D E u v
diamond [] [] at at_u at_v D E apart mu mv (done a) (done b) = (_, done (sym a ∙ b), done refl)
diamond (h ∷ hs) [] at at_u at_v D E apart mu mv a b =
    first_step h hs [] at at_u at_v D E a b tt refl mu mv λ at_u' at_v' old' u' v' a' b' mu' mv'.
      diamond hs [] (support_end h) at_u' at_v' (D +ℤ delta h) E (disjoint-nil hs) mu' mv' a' b'
diamond [] (k ∷ ks) at at_u at_v D E apart mu mv a b = Meets-sym [] (k ∷ ks) at_u at_v D E (
    first_step k ks [] at at_v at_u E D b a tt refl mv mu λ at_v' at_u' old' v' u' b' a' mv' mu'.
      Meets-sym ks [] at_v' at_u' (E +ℤ delta k) D
        (diamond [] ks (support_end k) at_u' at_v' D (E +ℤ delta k) refl mu' mv' a' b'))
diamond (h ∷ hs) (k ∷ ks) at at_u at_v D E apart mu mv a b =
    let (h_apart, hs_apart) = disjoint_parts h hs (k ∷ ks) apart in
    let (k_apart, ks_apart) = disjoint_parts k ks (h ∷ hs) (disjoint-sym (h ∷ hs) (k ∷ ks) apart) in
    elim (apart_order h k (head_apart h k ks h_apart)) [
      | inl h_first ↦
          first_step h hs (k ∷ ks) at at_u at_v D E a b h_first h_apart mu mv
            λ at_u' at_v' old' u' v' a' b' mu' mv'.
              diamond hs (k ∷ ks) (support_end h) at_u' at_v' (D +ℤ delta h) E hs_apart mu' mv' a'
                b'
      | inr k_first ↦ Meets-sym (h ∷ hs) (k ∷ ks) at_u at_v D E (
          first_step k ks (h ∷ hs) at at_v at_u E D b a k_first k_apart mv mu
            λ at_v' at_u' old' v' u' b' a' mv' mu'.
              Meets-sym ks (h ∷ hs) at_v' at_u' (E +ℤ delta k) D (
                diamond (h ∷ hs) ks (support_end k) at_u' at_v' D (E +ℤ delta k)
                  (disjoint-sym ks (h ∷ hs) ks_apart) mu' mv' a' b'))
    ]
