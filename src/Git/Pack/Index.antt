-- ===== src/Git/Pack/Index.antt =====
-- crates/omoplata-git/src/pack.rs: the index of a pack. A count read from 32 bits and the sizes of
-- the tables, which are small multiples of it, fit 64 bits, so the checked arithmetic succeeds.
use omoplata.Prelude.{
  ℕ, zero, suc, ◌+◌, ◌-◌, ◌*◌, not, ◌&&◌, ◌||◌, List, [], ◌∷◌, length, take, leb, ltb, ◌==◌, nat_eq,
  list_eq, Result, ok, err, ◌>>=◌, if◌then◌else◌,
}
use omoplata.Git.Bytes.{Bytes}
use omoplata.Git.Error.{GitError, pack}
use omoplata.Git.Oid.{GitOid}
use omoplata.Git.Pack.Delta.{get_range, chunk_or}

abbrev pub idx_magic : Bytes
idx_magic = 0xff ∷ 0x74 ∷ 0x4f ∷ 0x63 ∷ []

abbrev pub pack_magic : Bytes
pack_magic = b'P' ∷ b'A' ∷ b'C' ∷ b'K' ∷ []

abbrev pub idx_large_offset_flag : ℕ
idx_large_offset_flag = 0x80000000

-- `from_be_bytes`
abbrev pub be_value : ℕ → Bytes → ℕ
be_value acc [] = acc
be_value acc (b ∷ bytes) = be_value (acc * 256 + b) bytes

unfoldable pub read_be_u32 : Bytes → ℕ → Result GitError ℕ
read_be_u32 bytes at = do
  b ← chunk_or (get_range bytes at 4) "read past end (u32)"
  ok (be_value 0 b)

unfoldable pub read_be_u64 : Bytes → ℕ → Result GitError ℕ
read_be_u64 bytes at = do
  b ← chunk_or (get_range bytes at 8) "read past end (u64)"
  ok (be_value 0 b)

-- A large offset is a place in the table of large offsets.
unfoldable pub real_offset : Bytes → (large_start raw_offset : ℕ) → Result GitError ℕ
unfolding read_be_u64
real_offset bytes large_start raw_offset =
    if leb idx_large_offset_flag raw_offset
    then read_be_u64 bytes (large_start + (raw_offset - idx_large_offset_flag) * 8)
    else ok raw_offset

-- The entry with number `i`.
unfoldable pub idx_entry :
    Bytes → (names_start offsets_start large_start i : ℕ) → Result GitError (GitOid × ℕ)
unfolding read_be_u32 real_offset
idx_entry bytes names_start offsets_start large_start i = do
  oid ← chunk_or (get_range bytes (names_start + i * 20) 20) "pack index: truncated (name table)"
  raw_offset ← read_be_u32 bytes (offsets_start + i * 4)
  offset ← real_offset bytes large_start raw_offset
  ok (oid, offset)

-- The entries from number `i` on.
unfoldable pub idx_loop :
    (left : ℕ)
    → Bytes
    → (names_start offsets_start large_start i : ℕ) → Result GitError (List (GitOid × ℕ))
unfolding idx_entry
idx_loop zero bytes names_start offsets_start large_start i = ok []
idx_loop (suc left) bytes names_start offsets_start large_start i = do
  entry ← idx_entry bytes names_start offsets_start large_start i
  entries ← idx_loop left bytes names_start offsets_start large_start (i + 1)
  ok (entry ∷ entries)

unfoldable pub idx_tables : Bytes → (count : ℕ) → Result GitError (List (GitOid × ℕ))
unfolding idx_loop
idx_tables bytes count =
    let names_start = 8 + 256 * 4 in
    let offsets_start = names_start + count * 20 + count * 4 in
    let large_start = offsets_start + count * 4 in
    let entries = idx_loop count bytes names_start offsets_start large_start 0 in
    if ltb (length bytes) large_start
    then err (pack "pack index: truncated (offset table)")
    else entries

unfoldable pub idx_counted : Bytes → (version : ℕ) → Result GitError (List (GitOid × ℕ))
unfolding read_be_u32 idx_tables
idx_counted bytes version =
    if version == 2
    then (do count ← read_be_u32 bytes (8 + 255 * 4); idx_tables bytes count)
    else err (pack "pack index: unsupported version (expected 2)")

unfoldable pub parse_idx : Bytes → Result GitError (List (GitOid × ℕ))
unfolding read_be_u32 idx_counted
parse_idx bytes =
    if ltb (length bytes) 8 || not (take 4 bytes == idx_magic)
    then err (pack "pack index: bad magic (not v2)")
    else (do version ← read_be_u32 bytes 4; idx_counted bytes version)

unfoldable pub header_count : Bytes → (version : ℕ) → Result GitError ℕ
unfolding read_be_u32
header_count bytes version =
    if not (version == 2) && not (version == 3)
    then err (pack "packfile: unsupported version (expected 2 or 3)")
    else read_be_u32 bytes 8

unfoldable pub parse_pack_header : Bytes → Result GitError ℕ
unfolding read_be_u32 header_count
parse_pack_header bytes =
    if ltb (length bytes) 12 || not (take 4 bytes == pack_magic)
    then err (pack "packfile: bad magic")
    else (do version ← read_be_u32 bytes 4; header_count bytes version)
