-- ===== src/Git/Pack/Sizes.antt =====
-- crates/omoplata-git/src/pack.rs: variable-length numbers. A cursor into the data is the rest of
-- the data. `x << s` drops what passes 64 bits, and `a | b` is `a + b`: the bits of `b` lie above
-- those of `a`.
pub mod RoundTrip
use omoplata.Prelude.{
  ℕ, zero, suc, ◌+◌, ◌-◌, ◌*◌, ◌/◌, ◌%◌, ◌^◌, String, Bool, true, false, Option, none, some, List,
  [], ◌∷◌, ltb, leb, Result, ok, err, ◌>>=◌, if◌then◌else◌,
}
use omoplata.Git.Bytes.{Bytes}
use omoplata.Git.Error.{GitError, pack}

abbrev pub max_object_size : ℕ
max_object_size = 2 ^ 34

abbrev pub u64_mod : ℕ
u64_mod = 2 ^ 64

abbrev pub take_byte : Bytes → Result GitError (ℕ × Bytes)
take_byte [] = err (pack "packfile: unexpected end of data")
take_byte (b ∷ rest) = ok (b, rest)

-- `u64::from(c & 0x7f).checked_shl(shift)`
abbrev pub checked_shl : ℕ → ℕ → Option ℕ
checked_shl v shift = if leb 64 shift then none else some (v * 2 ^ shift % u64_mod)

-- The loop of `read_delta_size`.
unfoldable pub delta_size_loop : Bytes → ℕ → ℕ → Result GitError (ℕ × Bytes)
delta_size_loop [] size shift = err (pack "packfile: unexpected end of data")
delta_size_loop (c ∷ rest) size shift = elim (checked_shl (c % 128) shift) [
  | none ↦ err (pack "packfile: delta size varint overflow")
  | some bits ↦
      let more = delta_size_loop rest (size + bits) (shift + 7) in
      if ltb c 128
      then ok (size + bits, rest)
      else if ltb max_object_size (size + bits)
      then err (pack "packfile: delta size exceeds limit")
      else more
]

unfoldable pub read_delta_size : Bytes → Result GitError (ℕ × Bytes)
unfolding delta_size_loop
read_delta_size src = delta_size_loop src 0 0

-- The loop of `read_entry_header`, with the byte whose top bit says whether another one follows.
unfoldable pub entry_size_loop : Bytes → ℕ → ℕ → ℕ → Result GitError (ℕ × Bytes)
entry_size_loop [] c size shift =
    if ltb c 128 then ok (size, []) else err (pack "packfile: unexpected end of data")
entry_size_loop (c' ∷ rest) c size shift = elim (checked_shl (c' % 128) shift) [
  | none ↦ if ltb c 128 then ok (size, c' ∷ rest) else err (pack "packfile: size varint overflow")
  | some bits ↦
      let more = entry_size_loop rest c' (size + bits) (shift + 7) in
      if ltb c 128
      then ok (size, c' ∷ rest)
      else if ltb max_object_size (size + bits)
      then err (pack "packfile: object size exceeds limit")
      else more
]

-- The type, the size and what follows the header.
unfoldable pub read_entry_header : Bytes → Result GitError (ℕ × ℕ × Bytes)
unfolding entry_size_loop
read_entry_header data' = do
  (c, rest) ← take_byte data'
  (size, rest') ← entry_size_loop rest c (c % 16) 4
  ok (c / 16 % 8, size, rest')

-- The loop of `read_ofs_delta_offset`. The sum with one is checked against 64 bits, and the shift
-- by seven is not: what passes 64 bits is dropped.
unfoldable pub ofs_loop : Bytes → ℕ → ℕ → Result GitError (ℕ × Bytes)
ofs_loop [] c off =
    if ltb c 128 then ok (off, []) else err (pack "packfile: unexpected end of data")
ofs_loop (c' ∷ rest) c off =
    let more = ofs_loop rest c' ((off + 1) * 128 % u64_mod + c' % 128) in
    if ltb c 128
    then ok (off, c' ∷ rest)
    else if leb u64_mod (off + 1)
    then err (pack "packfile: ofs-delta offset overflow")
    else more

unfoldable pub read_ofs_delta_offset : Bytes → Result GitError (ℕ × Bytes)
unfolding ofs_loop
read_ofs_delta_offset data' = do (c, rest) ← take_byte data'; ofs_loop rest c (c % 128)
