-- ===== src/Work/OpLog/Activity.antt =====
-- Which operations of a log are active: enough fuel, and what operations at the end do to it.
use omoplata.Prelude.{
  ◌≡◌, refl, ap, ℕ, zero, suc, ◌+◌, ◌%◌, ◌<◌, ◌≤◌, Bool, true, List, [], ◌∷◌, ◌++◌, length, ◌==◌,
  nat_eq, Bool-cases, inl, inr, arith,
}
use omoplata.Work.OpLog.{Operation, undoes, active_undos, is_active_with}

-- From number `n` on, each operation is numbered by its place, and undoes earlier ones only.
pub data IsLog : ℕ → List Operation → Type 0 where
  empty : {n : ℕ} → IsLog n []
  next :
      {n : ℕ} {op : Operation} {ops : List Operation}
      → op.seq ≡ n
      → ((t : ℕ) → undoes op.kind t ≡ true → t < n)
      → IsLog (suc n) ops
      → IsLog n (op ∷ ops)

pub IsLog-append :
    {n : ℕ} (ops : List Operation) (op : Operation)
    → IsLog n ops
    → op.seq ≡ n + length ops
    → ((t : ℕ) → undoes op.kind t ≡ true → t < n + length ops)
    → IsLog n (ops ++ op ∷ [])
IsLog-append [] op empty at earlier =
    next (omega arith) (λ t h. let lt = earlier t h in omega arith) empty
IsLog-append (o ∷ ops) op (next e first rest) at earlier =
    next e first
      (IsLog-append ops op rest (omega arith) (λ t h. let lt = earlier t h in omega arith))

module _ (limit : ℕ) where
  pub active_undos-append :
      (f : ℕ → Bool) (seq n : ℕ) (ops tail : List Operation)
      → IsLog n ops
      → n + length ops ≤ suc limit
      → active_undos f seq limit (ops ++ tail)
        ≡ active_undos f seq limit ops + active_undos f seq limit tail
  unfolding active_undos
  active_undos-append f seq n [] tail empty short = omega arith
  active_undos-append f seq n (op ∷ ops) tail (next e first rest) short =
      ground (arith, active_undos-append f seq (suc n) ops tail rest (omega arith))

  pub active_undos-ext :
      (f g : ℕ → Bool) (seq n : ℕ) (ops : List Operation)
      → IsLog n ops
      → ((k : ℕ) → seq < k → k < n + length ops → f k ≡ g k)
      → active_undos f seq limit ops ≡ active_undos g seq limit ops
  unfolding active_undos
  active_undos-ext f g seq n [] empty same = refl
  active_undos-ext f g seq n (op ∷ ops) (next e first rest) same =
      let more = active_undos-ext f g seq (suc n) ops rest (λ k lo hi. same k lo (omega arith)) in
      elim (Bool-cases (undoes op.kind seq)) [
        | inl hit ↦ ground (arith, more, hit, same op.seq (rw (e) (first seq hit)) (omega arith))
        | inr miss ↦ ground (arith, more, miss)
      ]

  -- The last number of a log, and those after it, no operation of it undoes.
  pub active_undos-last :
      (f : ℕ → Bool) (seq n : ℕ) (ops : List Operation)
      → IsLog n ops
      → n + length ops ≤ suc seq
      → active_undos f seq limit ops ≡ 0
  unfolding active_undos
  active_undos-last f seq n [] empty late = refl
  active_undos-last f seq n (op ∷ ops) (next e first rest) late =
      let more = active_undos-last f seq (suc n) ops rest (omega arith) in
      elim (Bool-cases (undoes op.kind seq)) [
        | inl hit ↦ let lt = first seq hit in absurd (omega arith)
        | inr miss ↦ ground (arith, more, miss)
      ]

  -- As many rounds as there are operations after the one in question are enough.
  pub is_active_with-enough :
      (ops : List Operation) (f g seq : ℕ)
      → IsLog 0 ops
      → length ops ≤ seq + suc f
      → length ops ≤ seq + suc g
      → is_active_with (suc f) ops seq limit ≡ is_active_with (suc g) ops seq limit
  unfolding is_active_with
  is_active_with-enough ops zero g seq log hf hg =
      ap (λ c. c % 2 == 0)
        (active_undos-ext (λ s. is_active_with zero ops s limit) (λ s. is_active_with g ops s limit)
          seq 0 ops log (λ k lo hi. absurd (omega arith)))
  is_active_with-enough ops (suc f) zero seq log hf hg =
      ap (λ c. c % 2 == 0)
        (active_undos-ext (λ s. is_active_with (suc f) ops s limit)
          (λ s. is_active_with zero ops s limit) seq 0 ops log (λ k lo hi. absurd (omega arith)))
  is_active_with-enough ops (suc f) (suc g) seq log hf hg =
      ap (λ c. c % 2 == 0)
        (active_undos-ext (λ s. is_active_with (suc f) ops s limit)
          (λ s. is_active_with (suc g) ops s limit) seq 0 ops log
          (λ k lo hi. is_active_with-enough ops f g k log (omega arith) (omega arith)))
