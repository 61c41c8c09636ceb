-- ===== src/Git/Pack/Delta/Format.antt =====
-- The instructions of a delta, and how they are written: any of the bytes of a copy may be left out.
use omoplata.Prelude.{
  ℕ, zero, suc, ◌+◌, ◌*◌, ◌<◌, ◌≤◌, Option, none, some, List, [], ◌∷◌, ◌++◌, length, take, drop,
}
use omoplata.Git.Bytes.{Bytes}
use omoplata.Git.Pack.Sizes.RoundTrip.{size_bytes}

-- The bytes of a copy that are there: four of the offset and three of the size, the lowest first.
pub record Fields : Type 0 where
  pub o0 : Option ℕ
  pub o1 : Option ℕ
  pub o2 : Option ℕ
  pub o3 : Option ℕ
  pub s0 : Option ℕ
  pub s1 : Option ℕ
  pub s2 : Option ℕ

pub data Instruction : Type 0 where
  copy : Fields → Instruction
  insert : Bytes → Instruction

-- A byte that is left out is 0.
abbrev pub field : Option ℕ → ℕ
field none = 0
field (some b) = b

abbrev pub flag : Option ℕ → ℕ
flag none = 0
flag (some b) = 1

abbrev pub present : Option ℕ → Bytes → Bytes
present none rest = rest
present (some b) rest = b ∷ rest

abbrev pub start_of : Fields → ℕ
start_of f = field f.o0 + 256 * field f.o1 + 65536 * field f.o2 + 16777216 * field f.o3

abbrev pub coded_size : Fields → ℕ
coded_size f = field f.s0 + 256 * field f.s1 + 65536 * field f.s2

-- The size 0 stands for 64 KiB.
abbrev pub length_of : ℕ → ℕ
length_of zero = 65536
length_of (suc n) = suc n

abbrev pub output : Bytes → Instruction → Bytes
output base (copy f) = take (length_of (coded_size f)) (drop (start_of f) base)
output base (insert bytes) = bytes

abbrev pub run : Bytes → List Instruction → Bytes
run base [] = []
run base (i ∷ is) = output base i ++ run base is

-- A copy stays within the base, and an insertion has 1 to 127 bytes.
abbrev pub IsRunnable : Bytes → Instruction → Type 0
IsRunnable base (copy f) = start_of f + length_of (coded_size f) ≤ length base
IsRunnable base (insert bytes) = (1 ≤ length bytes) × (length bytes < 128)

-- The opcode of a copy: the highest bit, and one for each byte that is there.
abbrev pub opcode_of : Fields → ℕ
opcode_of f =
    128
    + flag f.o0
    + 2 * flag f.o1
    + 4 * flag f.o2
    + 8 * flag f.o3
    + 16 * flag f.s0
    + 32 * flag f.s1
    + 64 * flag f.s2

abbrev pub written : Instruction → Bytes → Bytes
written (copy f) rest =
    opcode_of f
    ∷ present f.o0 (
        present f.o1
          (present f.o2 (present f.o3 (present f.s0 (present f.s1 (present f.s2 rest))))))
written (insert bytes) rest = length bytes ∷ (bytes ++ rest)

abbrev pub program : List Instruction → Bytes
program [] = []
program (i ∷ is) = written i (program is)

-- A whole delta: the sizes of the base and of the result, and the instructions.
abbrev pub delta_of : Bytes → List Instruction → Bytes
delta_of base is = size_bytes 8 (length base) ++ (size_bytes 8 (length (run base is)) ++ program is)
