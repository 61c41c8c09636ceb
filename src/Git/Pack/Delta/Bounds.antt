-- ===== src/Git/Pack/Delta/Bounds.antt =====
-- What applying any delta gives, written by git or not.
use omoplata.Prelude.{
  ◌≡◌, inl, inr, refl, sym, ◌∙◌, ℕ, zero, suc, ◌≤◌, Bool, true, false, Option, none, some, [], ◌∷◌,
  ◌++◌, length, length-drop, nat_eq, eq→eq, Result, ok, err, Result-cases, bind-ok, arith,
}
use omoplata.Git.Bytes.{Bytes}
use omoplata.Git.Error.{GitError}
use omoplata.Git.Pack.Sizes.{max_object_size, read_delta_size}
use omoplata.Git.Pack.Delta.{
  bit, byte_if, copy_offset, copy_size, get_range, chunk_or, delta_copy, delta_insert, delta_op,
  delta_loop, sized, target_size, delta_sizes, apply_delta,
}

byte_if-shorter :
    (b : Bool) (src rest : Bytes) (v : ℕ) → byte_if b src ≡ ok (v, rest) → length rest ≤ length src
byte_if-shorter true [] rest v e = absurd (cc (e))
byte_if-shorter true (x ∷ src) rest v e = ground arith
byte_if-shorter false src rest v e = ground arith

copy_offset-shorter :
    (opcode : ℕ) (src rest : Bytes) (v : ℕ)
    → copy_offset opcode src ≡ ok (v, rest)
    → length rest ≤ length src
unfolding copy_offset
copy_offset-shorter opcode src rest v h =
    let ((a, src1), e1, h1) = bind-ok (byte_if (bit opcode 0) src) _ h in
    let ((b, src2), e2, h2) = bind-ok (byte_if (bit opcode 1) src1) _ h1 in
    let ((c, src3), e3, h3) = bind-ok (byte_if (bit opcode 2) src2) _ h2 in
    let ((d, src4), e4, h4) = bind-ok (byte_if (bit opcode 3) src3) _ h3 in
    ground (
      arith,
      byte_if-shorter (bit opcode 0) src src1 a e1,
      byte_if-shorter (bit opcode 1) src1 src2 b e2,
      byte_if-shorter (bit opcode 2) src2 src3 c e3,
      byte_if-shorter (bit opcode 3) src3 src4 d e4,
    )

copy_size-shorter :
    (opcode : ℕ) (src rest : Bytes) (v : ℕ)
    → copy_size opcode src ≡ ok (v, rest)
    → length rest ≤ length src
unfolding copy_size
copy_size-shorter opcode src rest v h =
    let ((a, src1), e1, h1) = bind-ok (byte_if (bit opcode 4) src) _ h in
    let ((b, src2), e2, h2) = bind-ok (byte_if (bit opcode 5) src1) _ h1 in
    let ((c, src3), e3, h3) = bind-ok (byte_if (bit opcode 6) src2) _ h2 in
    ground (
      arith,
      byte_if-shorter (bit opcode 4) src src1 a e1,
      byte_if-shorter (bit opcode 5) src1 src2 b e2,
      byte_if-shorter (bit opcode 6) src2 src3 c e3,
    )

delta_copy-shorter :
    (base : Bytes) (opcode : ℕ) (src rest chunk : Bytes)
    → delta_copy base opcode src ≡ ok (chunk, rest)
    → length rest ≤ length src
unfolding delta_copy
delta_copy-shorter base opcode src rest chunk h =
    let ((start, src1), e1, h1) = bind-ok (copy_offset opcode src) _ h in
    let ((len, src2), e2, h2) = bind-ok (copy_size opcode src1) _ h1 in
    let (c, e3, h3) =
      bind-ok (chunk_or (get_range base start len) "delta: copy range out of base bounds") _ h2 in
    ground (
      arith,
      copy_offset-shorter opcode src src1 start e1,
      copy_size-shorter opcode src1 src2 len e2,
    )

delta_insert-shorter :
    (len : ℕ) (src rest chunk : Bytes)
    → delta_insert len src ≡ ok (chunk, rest)
    → length rest ≤ length src
unfolding delta_insert
delta_insert-shorter len src rest chunk h =
    let (c, e, h') =
      bind-ok (chunk_or (get_range src 0 len) "delta: insert runs past end of stream") _ h in
    ground (arith, length-drop len src)

delta_op-shorter :
    (base : Bytes) (opcode : ℕ) (src rest chunk : Bytes)
    → delta_op base opcode src ≡ ok (chunk, rest)
    → length rest ≤ length src
unfolding delta_op
delta_op-shorter base opcode src rest chunk h = ground (
  arith,
  delta_copy-shorter base opcode src rest chunk,
  delta_insert-shorter opcode src rest chunk,
)

delta_loop-ends :
    (fuel : ℕ) (base src out : Bytes)
    → length src ≤ fuel
    → (r : Result GitError Bytes) × (delta_loop fuel base src out ≡ some r)
unfolding delta_loop
delta_loop-ends fuel base [] out h = (ok out, refl)
delta_loop-ends zero base (opcode ∷ src) out h = absurd (omega arith)
delta_loop-ends (suc fuel) base (opcode ∷ src) out h =
    elim (Result-cases (delta_op base opcode src)) [
      | inl (e, failed) ↦ (err e, rw (delta_loop, failed))
      | inr ((chunk, src'), went) ↦
          rw (delta_loop, went)
            (delta_loop-ends fuel base src' (out ++ chunk)
              (omega (arith, delta_op-shorter base opcode src src' chunk went)))
    ]

sized-ends :
    (tgt : ℕ) (r : Result GitError Bytes)
    → (r' : Result GitError Bytes) × (sized tgt (some r) ≡ some r')
sized-ends tgt (ok out) = (_, refl)
sized-ends tgt (err e) = (err e, refl)

target_size-limit :
    (src : Bytes) (tgt : ℕ) (rest : Bytes)
    → target_size src ≡ ok (tgt, rest)
    → tgt ≤ max_object_size
unfolding target_size
target_size-limit src tgt rest h =
    let ((size, rest1), e1, h1) = bind-ok (read_delta_size src) _ h in ground arith

delta_sizes-limit :
    (base delta : Bytes) (tgt : ℕ) (rest : Bytes)
    → delta_sizes base delta ≡ ok (tgt, rest)
    → tgt ≤ max_object_size
unfolding delta_sizes
delta_sizes-limit base delta tgt rest h =
    let ((src_size, rest1), e1, h1) = bind-ok (read_delta_size delta) _ h in
    ground (arith, target_size-limit rest1 tgt rest)

sized-eq-ok :
    (tgt : ℕ) (o : Option (Result GitError Bytes)) (out : Bytes)
    → sized tgt o ≡ some (ok out)
    → length out ≡ tgt
sized-eq-ok tgt none out h = absurd (cc (h))
sized-eq-ok tgt (some (err e)) out h = absurd (cc (h))
sized-eq-ok tgt (some (ok o)) out h = ground (arith, eq→eq (length o) tgt)

-- Applying a delta always ends, with an error or with a result.
pub apply_delta-ends :
    (base delta : Bytes) → (r : Result GitError Bytes) × (apply_delta base delta ≡ some r)
unfolding apply_delta
apply_delta-ends base delta = elim (Result-cases (delta_sizes base delta)) [
  | inl (e, failed) ↦ (err e, rw (apply_delta, failed))
  | inr ((tgt, rest), went) ↦
      let (r, ended) = delta_loop-ends (length rest) base rest [] (omega arith) in
      rw (apply_delta, went, ended) (sized-ends tgt r)
]

-- A result that applying a delta gives is within the size limit.
pub apply_delta-limit :
    (base delta out : Bytes) → apply_delta base delta ≡ some (ok out) → length out ≤ max_object_size
unfolding apply_delta
apply_delta-limit base delta out h = elim (Result-cases (delta_sizes base delta)) [
  | inl (e, failed) ↦ absurd (cc (sym (failing e failed) ∙ h))
  | inr ((tgt, rest), went) ↦
      let size =
        sized-eq-ok tgt (delta_loop (length rest) base rest []) out
          (sym (passing tgt rest went) ∙ h) in
      omega (arith, delta_sizes-limit base delta tgt rest went)
]
  where
    failing :
        (e : GitError) → delta_sizes base delta ≡ err e → apply_delta base delta ≡ some (err e)
    failing e failed = rw (apply_delta, failed)

    passing :
        (tgt : ℕ) (rest : Bytes)
        → delta_sizes base delta ≡ ok (tgt, rest)
        → apply_delta base delta ≡ sized tgt (delta_loop (length rest) base rest [])
    passing tgt rest went = rw (apply_delta, went)
