-- ===== src/Prelude/Lists/Slices.antt =====
-- Slices of a list: how they split it and how long they are.
use Prim.Native.Nat.{ℕ, zero, suc, ◌+◌, ◌-◌, ◌≤◌}
use mathlib.Core.Path.{◌≡◌, refl, ap, sym, ◌∙◌}
use mathlib.Core.List.{List, [], ◌∷◌, ◌++◌}
use native.Mathlib.Omega.{arith}
use omoplata.Prelude.Lists.{length, take, drop, slice, take-append-drop, length-take, length-drop}

module _ {ℓ} {A : Type ℓ} where
  pub drop-nil : (n : ℕ) → drop {A = A} n [] ≡ []
  drop-nil zero = refl
  drop-nil (suc n) = refl

  pub drop-drop : (lo d hi : ℕ) (xs : List A) → lo + d ≡ hi → drop d (drop lo xs) ≡ drop hi xs
  drop-drop zero d hi xs e = let e' : d ≡ hi = omega arith in rw e'
  drop-drop (suc lo) d zero xs e = absurd (omega arith)
  drop-drop (suc lo) d (suc hi) [] e = drop-nil d
  drop-drop (suc lo) d (suc hi) (x ∷ xs) e = drop-drop lo d hi xs (omega arith)

  pub take-length-append : (xs ys : List A) → take (length xs) (xs ++ ys) ≡ xs
  take-length-append [] ys = refl
  take-length-append (x ∷ xs) ys = ap (λ l. x ∷ l) (take-length-append xs ys)

  pub drop-length-append : (xs ys : List A) → drop (length xs) (xs ++ ys) ≡ ys
  drop-length-append [] ys = refl
  drop-length-append (x ∷ xs) ys = drop-length-append xs ys

  pub slice-append-drop :
      (lo hi : ℕ) (xs : List A) → lo ≤ hi → slice xs lo hi ++ drop hi xs ≡ drop lo xs
  slice-append-drop lo hi xs h =
      rw (← drop-drop lo (hi - lo) hi xs (omega arith)) (take-append-drop (hi - lo) (drop lo xs))

  pub length-slice : (lo hi : ℕ) (xs : List A) → hi ≤ length xs → length (slice xs lo hi) ≡ hi - lo
  length-slice lo hi xs h = omega (arith, length-take (hi - lo) (drop lo xs), length-drop lo xs)

  -- A prefix of what is left from `lo` on is a slice, and dropping it moves the cursor.
  pub slice-prefix :
      (lo hi : ℕ) (b xs ys : List A)
      → drop lo b ≡ xs ++ ys
      → lo + length xs ≡ hi
      → (slice b lo hi ≡ xs) × (drop hi b ≡ ys)
  slice-prefix lo hi b xs ys e l =
      let d : hi - lo ≡ length xs = omega arith in
      (
        rw (d, e) (take-length-append xs ys),
        sym (drop-drop lo (length xs) hi b l) ∙ rw e (drop-length-append xs ys),
      )
