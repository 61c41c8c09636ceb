-- ===== src/Git/Pack/Delta/Copies.antt =====
-- A copy is read back from its opcode and the bytes that are there.
use omoplata.Prelude.{
  ◌≡◌, refl, ap, ℕ, zero, suc, ◌+◌, ◌*◌, ◌/◌, ◌%◌, ◌≤◌, Bool, Option, none, some, length, le→leb,
  ◌==◌, nat_eq, ok, ◌>>=◌, arith,
}
use omoplata.Git.Bytes.{Bytes}
use omoplata.Git.Pack.Delta.{bit, byte_if, or_64k, copy_offset, copy_size, delta_copy}
use omoplata.Git.Pack.Delta.Format.{
  Fields, copy, field, flag, present, start_of, coded_size, length_of, output, IsRunnable,
  opcode_of,
}

flag-bit : (b : Option ℕ) → flag b ≤ 1
flag-bit none = omega arith
flag-bit (some b) = omega arith

-- A byte is read where its flag is set.
byte_if-present :
    (test : Bool) (b : Option ℕ) (rest : Bytes)
    → test ≡ (flag b == 1)
    → byte_if test (present b rest) ≡ ok (field b, rest)
byte_if-present test none rest h = rw (h) refl
byte_if-present test (some b) rest h = rw (h) refl

abbrev HasBits : ℕ → Fields → Type 0
HasBits n f =
    (bit n 0 ≡ (flag f.o0 == 1))
    × (bit n 1 ≡ (flag f.o1 == 1))
    × (bit n 2 ≡ (flag f.o2 == 1))
    × (bit n 3 ≡ (flag f.o3 == 1))
    × (bit n 4 ≡ (flag f.s0 == 1))
    × (bit n 5 ≡ (flag f.s1 == 1))
    × (bit n 6 ≡ (flag f.s2 == 1))

bits_of :
    (a b c d e f g : ℕ)
    → a ≤ 1
    → b ≤ 1
    → c ≤ 1
    → d ≤ 1
    → e ≤ 1
    → f ≤ 1
    → g ≤ 1
    → (n : ℕ) → n ≡ 128 + a + 2 * b + 4 * c + 8 * d + 16 * e + 32 * f + 64 * g
    → (n / 1 % 2 ≡ a)
      × (n / 2 % 2 ≡ b)
      × (n / 4 % 2 ≡ c)
      × (n / 8 % 2 ≡ d)
      × (n / 16 % 2 ≡ e)
      × (n / 32 % 2 ≡ f)
      × (n / 64 % 2 ≡ g)
bits_of a b c d e f g ha hb hc hd he hf hg n h =
    (omega arith, omega arith, omega arith, omega arith, omega arith, omega arith, omega arith)

opcode_of-HasBits : (f : Fields) → HasBits (opcode_of f) f
opcode_of-HasBits f =
    let (a, b, c, d, e, g, h) =
      bits_of (flag f.o0) (flag f.o1) (flag f.o2) (flag f.o3) (flag f.s0) (flag f.s1) (flag f.s2)
        (flag-bit f.o0) (flag-bit f.o1) (flag-bit f.o2) (flag-bit f.o3) (flag-bit f.s0)
        (flag-bit f.s1) (flag-bit f.s2) (opcode_of f) refl in
    let test : ℕ → Bool = λ n. n == 1 in
    (ap test a, ap test b, ap test c, ap test d, ap test e, ap test g, ap test h)

copy_offset-present :
    (f : Fields) (n : ℕ) (rest : Bytes)
    → HasBits n f
    → copy_offset n (present f.o0 (present f.o1 (present f.o2 (present f.o3 rest))))
      ≡ ok (start_of f, rest)
unfolding copy_offset
copy_offset-present f n rest (a, b, c, d, s0, s1, s2) =
    rw
      (
        byte_if-present (bit n 0) f.o0 (present f.o1 (present f.o2 (present f.o3 rest))) a,
        ◌>>=◌,
        byte_if-present (bit n 1) f.o1 (present f.o2 (present f.o3 rest)) b,
        ◌>>=◌,
        byte_if-present (bit n 2) f.o2 (present f.o3 rest) c,
        ◌>>=◌,
        byte_if-present (bit n 3) f.o3 rest d,
      )
      refl

length-or_64k : (n : ℕ) → or_64k n ≡ length_of n
length-or_64k zero = refl
length-or_64k (suc n) = ground arith

copy_size-present :
    (f : Fields) (n : ℕ) (rest : Bytes)
    → HasBits n f
    → copy_size n (present f.s0 (present f.s1 (present f.s2 rest)))
      ≡ ok (length_of (coded_size f), rest)
unfolding copy_size
copy_size-present f n rest (o0, o1, o2, o3, a, b, c) =
    rw
      (
        byte_if-present (bit n 4) f.s0 (present f.s1 (present f.s2 rest)) a,
        ◌>>=◌,
        byte_if-present (bit n 5) f.s1 (present f.s2 rest) b,
        ◌>>=◌,
        byte_if-present (bit n 6) f.s2 rest c,
      )
      (ap (λ (size : ℕ). ok (size, rest)) (length-or_64k (coded_size f)))

pub delta_copy-present :
    (base : Bytes) (f : Fields) (rest : Bytes)
    → IsRunnable base (copy f)
    → delta_copy base (opcode_of f) (
        present f.o0 (
          present f.o1
            (present f.o2 (present f.o3 (present f.s0 (present f.s1 (present f.s2 rest)))))))
      ≡ ok (output base (copy f), rest)
unfolding delta_copy
delta_copy-present base f rest within = rw (
  copy_offset-present f (opcode_of f) (present f.s0 (present f.s1 (present f.s2 rest)))
      (opcode_of-HasBits f),
  ◌>>=◌,
  copy_size-present f (opcode_of f) rest (opcode_of-HasBits f),
  ◌>>=◌,
  le→leb (start_of f + length_of (coded_size f)) (length base) within,
)
