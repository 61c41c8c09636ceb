-- ===== src/Work/OpLog/Folds.antt =====
-- The refs that a log folds to when operations are added to it.
use omoplata.Prelude.{
  ◌≡◌, refl, ap, ◌∙◌, ℕ, zero, suc, ◌+◌, ◌%◌, ◌<◌, ◌≤◌, Bool, true, false, List, [], ◌∷◌, ◌++◌,
  length, length-append, ◌==◌, nat_eq, if◌then◌else◌, arith,
}
use omoplata.Work.OpLog.{
  Operation, Refs, apply_op, active_undos, is_active_with, is_active, fold_loop, fold_refs,
}
use omoplata.Work.OpLog.Activity.{
  IsLog, empty, next, active_undos-append, active_undos-ext, active_undos-last,
  is_active_with-enough,
}

module _ (limit : ℕ) where
  fold_loop-append :
      (f : ℕ → Bool) (n : ℕ) (ops tail : List Operation) (refs : Refs)
      → IsLog n ops
      → n + length ops ≤ suc limit
      → fold_loop f limit (ops ++ tail) refs ≡ fold_loop f limit tail (fold_loop f limit ops refs)
  unfolding fold_loop
  fold_loop-append f n [] tail refs empty short = refl
  fold_loop-append f n (op ∷ ops) tail refs (next e first rest) short = ground (
    arith,
    fold_loop-append f (suc n) ops tail (if f op.seq then apply_op op.kind refs else refs) rest
        (omega arith),
  )

  fold_loop-ext :
      (f g : ℕ → Bool) (n : ℕ) (ops : List Operation) (refs : Refs)
      → IsLog n ops
      → ((k : ℕ) → k < n + length ops → f k ≡ g k)
      → fold_loop f limit ops refs ≡ fold_loop g limit ops refs
  unfolding fold_loop
  fold_loop-ext f g n [] refs empty same = refl
  fold_loop-ext f g n (op ∷ ops) refs (next e first rest) same = ground (
    arith,
    same op.seq (omega arith),
    fold_loop-ext f g (suc n) ops (if g op.seq then apply_op op.kind refs else refs) rest
        (λ k hi. same k (omega arith)),
  )

  module _ (f : ℕ → Bool) (op : Operation) (tail : List Operation) (refs : Refs) where
    pub fold_loop-active :
        op.seq ≤ limit
        → f op.seq ≡ true
        → fold_loop f limit (op ∷ tail) refs ≡ fold_loop f limit tail (apply_op op.kind refs)
    unfolding fold_loop
    fold_loop-active lo on = ground arith

    pub fold_loop-inactive :
        op.seq ≤ limit
        → f op.seq ≡ false
        → fold_loop f limit (op ∷ tail) refs ≡ fold_loop f limit tail refs
    unfolding fold_loop
    fold_loop-inactive lo off = ground arith

  -- Beyond the last number an operation is active, with whatever fuel.
  pub late-active :
      (fuel seq : ℕ) (ops : List Operation)
      → IsLog 0 ops
      → length ops ≤ suc seq
      → is_active_with fuel ops seq limit ≡ true
  unfolding is_active_with
  late-active zero seq ops log late = refl
  late-active (suc fuel) seq ops log late =
      rw
        (active_undos-last limit (λ s. is_active_with fuel ops s limit) seq 0 ops log (omega arith))

  module _ (ops tail : List Operation) (log : IsLog 0 ops) (short : length ops ≤ suc limit)
      (quiet : (f : ℕ → Bool) (s : ℕ) → s < length ops → active_undos f s limit tail ≡ 0) where
    is_active_with-tail :
        (fuel seq : ℕ)
        → seq < length ops
        → is_active_with fuel (ops ++ tail) seq limit ≡ is_active_with fuel ops seq limit
    unfolding is_active_with
    is_active_with-tail zero seq lo = refl
    is_active_with-tail (suc fuel) seq lo =
        let f : ℕ → Bool = λ s. is_active_with fuel (ops ++ tail) s limit in
        let g : ℕ → Bool = λ s. is_active_with fuel ops s limit in
        let split = active_undos-append limit f seq 0 ops tail log (omega arith) in
        let none_there = quiet f seq lo in
        let same =
          active_undos-ext limit f g seq 0 ops log
            (λ k lo' hi. is_active_with-tail fuel k (omega arith)) in
        ap (λ c. c % 2 == 0) (omega arith)

    pub is_active-tail :
        (fuel fuel' seq : ℕ)
        → seq < length ops
        → length ops ≤ seq + fuel
        → length ops ≤ seq + fuel'
        → is_active_with fuel (ops ++ tail) seq limit ≡ is_active_with fuel' ops seq limit
    is_active-tail zero fuel' seq lo h h' = absurd (omega arith)
    is_active-tail (suc fuel) zero seq lo h h' = absurd (omega arith)
    is_active-tail (suc fuel) (suc fuel') seq lo h h' =
        is_active_with-tail (suc fuel) seq lo
        ∙ is_active_with-enough limit ops fuel fuel' seq log h h'

    -- The refs after more operations that undo none of the ones before: those of the log before,
    -- with the further ones applied as far as they are active.
    pub fold_refs-tail :
        fold_refs (record { ops = ops ++ tail }) limit
        ≡ fold_loop
            (λ s. is_active (record { ops = ops ++ tail }) s limit)
            limit
            tail
            (fold_refs (record { ops = ops }) limit)
    unfolding fold_refs is_active
    fold_refs-tail =
        let f : ℕ → Bool = λ s. is_active (record { ops = ops ++ tail }) s limit in
        let g : ℕ → Bool = λ s. is_active (record { ops = ops }) s limit in
        fold_loop-append f 0 ops tail [] log (omega arith)
        ∙ ap (fold_loop f limit tail) (
            fold_loop-ext f g 0 ops [] log (λ k hi.
              is_active-tail (length (ops ++ tail) + 1) (length ops + 1) k (omega arith)
                (rw (length-append ops tail) (omega arith)) (omega arith)))
