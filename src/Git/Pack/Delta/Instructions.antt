-- ===== src/Git/Pack/Delta/Instructions.antt =====
-- Applying a delta that is written from instructions runs the instructions.
use mathlib.Core.List.{append_assoc, append-nil}
use omoplata.Prelude.{
  ◌≡◌, ap, sym, ◌∙◌, ℕ, zero, suc, ◌+◌, ◌≤◌, true, Option, none, some, List, [], ◌∷◌, ◌++◌, All,
  length, length-append, take-length-append, drop-length-append, leb, le→leb, ltb-eq-false, eq_self,
  nat_eq, ok, ◌>>=◌, arith,
}
use omoplata.Git.Bytes.{Bytes}
use omoplata.Git.Pack.Sizes.{max_object_size}
use omoplata.Git.Pack.Sizes.RoundTrip.{size_bytes, read_delta_size-size_bytes}
use omoplata.Git.Pack.Delta.{
  delta_insert, delta_op, delta_loop, target_size, delta_sizes, apply_delta,
}
use omoplata.Git.Pack.Delta.Format.{
  Instruction, copy, insert, present, opcode_of, output, run, IsRunnable, written, program,
  delta_of,
}
use omoplata.Git.Pack.Delta.Copies.{delta_copy-present}

delta_insert-eq-ok :
    (bytes rest : Bytes) → delta_insert (length bytes) (bytes ++ rest) ≡ ok (bytes, rest)
unfolding delta_insert
delta_insert-eq-ok bytes rest =
    let within : leb (0 + length bytes) (length (bytes ++ rest)) ≡ true =
      le→leb (0 + length bytes) (length (bytes ++ rest))
        (omega (arith, length-append bytes rest)) in
    rw (within, take-length-append bytes rest, drop-length-append bytes rest)

-- One written instruction is one round of the loop.
delta_loop-written :
    (fuel : ℕ) (base : Bytes) (i : Instruction) (rest out : Bytes)
    → IsRunnable base i
    → delta_loop (suc fuel) base (written i rest) out
      ≡ delta_loop fuel base rest (out ++ output base i)
unfolding delta_loop delta_op
delta_loop-written fuel base (copy f) rest out within =
    let high : leb 128 (opcode_of f) ≡ true = le→leb 128 (opcode_of f) (omega arith) in
    rw (delta_loop, high, delta_copy-present base f rest within)
delta_loop-written fuel base (insert bytes) rest out (some_bytes, few) =
    ground (arith, delta_insert-eq-ok bytes rest)

delta_loop-program :
    (fuel : ℕ) (base : Bytes) (is : List Instruction) (out : Bytes)
    → All (IsRunnable base) is
    → length is ≤ fuel
    → delta_loop fuel base (program is) out ≡ some (ok (out ++ run base is))
unfolding delta_loop
delta_loop-program fuel base [] out runs h = ap (λ o. some (ok o)) (sym (append-nil out))
delta_loop-program zero base (i ∷ is) out runs h = absurd (omega arith)
delta_loop-program (suc fuel) base (i ∷ is) out (one, more) h =
    delta_loop-written fuel base i (program is) out one
    ∙ delta_loop-program fuel base is (out ++ output base i) more (omega arith)
    ∙ ap (λ o. some (ok o)) (append_assoc out (output base i) (run base is))

length-present : (b : Option ℕ) (rest : Bytes) → length rest ≤ length (present b rest)
length-present none rest = omega arith
length-present (some b) rest = omega arith

length-written : (i : Instruction) (rest : Bytes) → 1 + length rest ≤ length (written i rest)
length-written (copy f) rest =
    let l2 = present f.s2 rest in
    let l1 = present f.s1 l2 in
    let l0 = present f.s0 l1 in
    let k3 = present f.o3 l0 in
    let k2 = present f.o2 k3 in
    let k1 = present f.o1 k2 in
    omega (
      arith,
      length-present f.o0 k1,
      length-present f.o1 k2,
      length-present f.o2 k3,
      length-present f.o3 l0,
      length-present f.s0 l1,
      length-present f.s1 l2,
      length-present f.s2 rest,
    )
length-written (insert bytes) rest = omega (arith, length-append bytes rest)

length-program : (is : List Instruction) → length is ≤ length (program is)
length-program [] = omega arith
length-program (i ∷ is) = omega (arith, length-program is, length-written i (program is))

delta_sizes-written :
    (base : Bytes) (m : ℕ) (rest : Bytes)
    → length base ≤ max_object_size
    → m ≤ max_object_size
    → delta_sizes base (size_bytes 8 (length base) ++ (size_bytes 8 m ++ rest)) ≡ ok (m, rest)
unfolding delta_sizes
delta_sizes-written base m rest small small' =
    let limit = ltb-eq-false max_object_size m small' in
    rw (
      read_delta_size-size_bytes (length base) (size_bytes 8 m ++ rest) small,
      ◌>>=◌,
      eq_self (length base),
      target_size,
      read_delta_size-size_bytes m rest small',
      ◌>>=◌,
      limit,
    )

-- Applying a delta runs its instructions on the base, where they are runnable on the base and the base and
-- the result are within the size limit: a copy with any of its seven bytes left out, which are 0 then,
-- as the bits of its opcode say, and with the size 0 for 64 KiB.
pub apply_delta-delta_of :
    (base : Bytes) (is : List Instruction)
    → All (IsRunnable base) is
    → length base ≤ max_object_size
    → length (run base is) ≤ max_object_size
    → apply_delta base (delta_of base is) ≡ some (ok (run base is))
unfolding apply_delta
apply_delta-delta_of base is runs small small' = rw (
  apply_delta,
  delta_sizes-written base (length (run base is)) (program is) small small',
  delta_loop-program (length (program is)) base is [] runs (length-program is),
  eq_self (length (run base is)),
)
