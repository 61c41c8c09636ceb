-- ===== src/Git/Pack/Delta.antt =====
-- crates/omoplata-git/src/pack.rs: the application of a delta. The bits of an opcode are its binary
-- digits, and the bytes of an offset or a size add up, since `|` joins them at separate places. A
-- range that ends past 64 bits is out of the bounds of the base, as a base is shorter.
pub mod Format
pub mod Copies
pub mod Instructions
pub mod Bounds
use omoplata.Prelude.{
  ℕ, zero, suc, ◌+◌, ◌-◌, ◌*◌, ◌/◌, ◌%◌, ◌^◌, String, Bool, true, false, not, Option, none, some,
  List, [], ◌∷◌, ◌++◌, length, empty, take, drop, slice, ltb, leb, ◌==◌, nat_eq, Result, ok, err,
  ◌>>=◌, if◌then◌else◌,
}
use omoplata.Git.Bytes.{Bytes}
use omoplata.Git.Error.{GitError, pack}
use omoplata.Git.Pack.Sizes.{max_object_size, take_byte, read_delta_size}

-- `opcode & (1 << i) != 0`
abbrev pub bit : ℕ → ℕ → Bool
bit opcode i = opcode / 2 ^ i % 2 == 1

-- A byte if the opcode has the bit, and no bits otherwise.
abbrev pub byte_if : Bool → Bytes → Result GitError (ℕ × Bytes)
byte_if true src = take_byte src
byte_if false src = ok (0, src)

unfoldable pub copy_offset : ℕ → Bytes → Result GitError (ℕ × Bytes)
copy_offset opcode src = do
  (a, src1) ← byte_if (bit opcode 0) src
  (b, src2) ← byte_if (bit opcode 1) src1
  (c, src3) ← byte_if (bit opcode 2) src2
  (d, src4) ← byte_if (bit opcode 3) src3
  ok (a + 256 * b + 65536 * c + 16777216 * d, src4)

abbrev pub or_64k : ℕ → ℕ
or_64k size = if size == 0 then 0x10000 else size

unfoldable pub copy_size : ℕ → Bytes → Result GitError (ℕ × Bytes)
copy_size opcode src = do
  (a, src1) ← byte_if (bit opcode 4) src
  (b, src2) ← byte_if (bit opcode 5) src1
  (c, src3) ← byte_if (bit opcode 6) src2
  ok (or_64k (a + 256 * b + 65536 * c), src3)

-- `data.get(start..start + len)`
abbrev pub get_range : Bytes → ℕ → ℕ → Option Bytes
get_range bytes start len =
    if leb (start + len) (length bytes) then some (take len (drop start bytes)) else none

abbrev pub chunk_or : Option Bytes → String → Result GitError Bytes
chunk_or (some chunk) reason = ok chunk
chunk_or none reason = err (pack reason)

unfoldable pub delta_copy : Bytes → ℕ → Bytes → Result GitError (Bytes × Bytes)
unfolding copy_offset copy_size
delta_copy base opcode src = do
  (start, src1) ← copy_offset opcode src
  (len, src2) ← copy_size opcode src1
  chunk ← chunk_or (get_range base start len) "delta: copy range out of base bounds"
  ok (chunk, src2)

unfoldable pub delta_insert : ℕ → Bytes → Result GitError (Bytes × Bytes)
delta_insert len src = do
  chunk ← chunk_or (get_range src 0 len) "delta: insert runs past end of stream"
  ok (chunk, drop len src)

-- One instruction: the bytes that it adds, and the rest of the delta behind it.
unfoldable pub delta_op : Bytes → ℕ → Bytes → Result GitError (Bytes × Bytes)
unfolding delta_copy delta_insert
delta_op base opcode src =
    if leb 128 opcode
    then delta_copy base opcode src
    else if opcode == 0
    then err (pack "delta: reserved opcode 0")
    else delta_insert opcode src

-- The loop over the instructions. Each takes a byte at least; `none` means that the fuel ran out.
unfoldable pub delta_loop : ℕ → Bytes → Bytes → Bytes → Option (Result GitError Bytes)
delta_loop fuel base [] out = some (ok out)
delta_loop zero base (opcode ∷ src) out = none
delta_loop (suc fuel) base (opcode ∷ src) out = elim (delta_op base opcode src) [
  | err e ↦ some (err e)
  | ok (chunk, src') ↦ delta_loop fuel base src' (out ++ chunk)
]

-- The check of the size at the end.
abbrev pub sized : ℕ → Option (Result GitError Bytes) → Option (Result GitError Bytes)
sized tgt_size (some (ok out)) = some (
    if length out == tgt_size
    then ok out
    else err (pack "delta: reconstructed size does not match target"))
sized tgt_size other = other

unfoldable pub target_size : Bytes → Result GitError (ℕ × Bytes)
target_size rest = do
  (tgt_size, rest') ← read_delta_size rest
  if ltb max_object_size tgt_size
      then err (pack "delta: target size exceeds limit")
      else ok (tgt_size, rest')

-- The two sizes at the head of a delta.
unfoldable pub delta_sizes : Bytes → Bytes → Result GitError (ℕ × Bytes)
unfolding target_size
delta_sizes base delta = do
  (src_size, rest) ← read_delta_size delta
  if src_size == length base
      then target_size rest
      else err (pack "delta: source size does not match base")

unfoldable pub apply_delta : Bytes → Bytes → Option (Result GitError Bytes)
unfolding delta_sizes delta_loop
apply_delta base delta = elim (delta_sizes base delta) [
  | err e ↦ some (err e)
  | ok (tgt_size, rest) ↦ sized tgt_size (delta_loop (length rest) base rest [])
]
