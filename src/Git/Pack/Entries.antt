-- ===== src/Git/Pack/Entries.antt =====
-- crates/omoplata-git/src/pack.rs: the entries of a pack and the chains of deltas. Inflating is the
-- code of another library: a parameter that gives, for the bytes from the start of a zlib stream on,
-- what the stream holds and how many bytes it took. The hash is a parameter too.
pub mod Chains
pub mod Complete
use omoplata.Prelude.{
  ℕ, zero, suc, ◌+◌, ◌-◌, String, Bool, true, false, ◌&&◌, ◌||◌, Option, none, some, List, [], ◌∷◌,
  ◌++◌, length, take, drop, leb, ltb, ◌==◌, nat_eq, list_eq, Assoc, get, insert, Result, ok, err,
  ◌>>=◌, ok_or, if◌then◌else◌,
}
use omoplata.Git.Bytes.{Bytes}
use omoplata.Git.Error.{GitError, pack, returned}
use omoplata.Git.Headers.{tree_text, tag_text}
use omoplata.Git.Object.{GitObject, canonical, blob_text, commit_text, decode_object}
use omoplata.Git.Oid.{GitOid}
use omoplata.Git.Pack.Delta.{get_range, chunk_or, apply_delta}
use omoplata.Git.Pack.Index.{parse_idx, parse_pack_header}
use omoplata.Git.Pack.Sizes.{read_entry_header, read_ofs_delta_offset}

pub data RawEntry : Type 0 where
  base_entry : (type_id : ℕ) (contents : Bytes) → RawEntry
  ofs_delta : (base_offset : ℕ) (delta : Bytes) → RawEntry
  ref_delta : (base_oid : GitOid) (delta : Bytes) → RawEntry

-- A resolved object: its type and its bytes.
abbrev pub Resolved : Type 0
Resolved = ℕ × Bytes

abbrev pub Memo : Type 0
Memo = Assoc ℕ Resolved

-- The types 1 to 4: commit, tree, blob, tag.
abbrev pub is_whole : ℕ → Bool
is_whole type_id = leb 1 type_id && leb type_id 4

abbrev pub obj_ofs_delta : ℕ
obj_ofs_delta = 6

abbrev pub obj_ref_delta : ℕ
obj_ref_delta = 7

-- The deepest chain of deltas that is followed.
abbrev pub max_delta_depth : ℕ
max_delta_depth = 200

abbrev pub checked_sub : ℕ → ℕ → Option ℕ
checked_sub a b = if leb b a then some (a - b) else none

-- The 20 bytes of an oid, and what is behind them.
unfoldable pub take_oid : Bytes → Result GitError (GitOid × Bytes)
take_oid rest = do
  oid ← chunk_or (get_range rest 0 20) "packfile: truncated ref-delta base oid"
  ok (oid, drop 20 rest)

unfoldable pub peek_type : Bytes → ℕ → Result GitError ℕ
unfolding read_entry_header
peek_type bytes offset = do
  (type_id, size, rest) ← read_entry_header (drop offset bytes)
  ok type_id

unfoldable pub canonical_bytes : ℕ → Bytes → Result GitError Bytes
canonical_bytes type_id body =
    if type_id == 1
    then ok (canonical commit_text body)
    else if type_id == 2
    then ok (canonical tree_text body)
    else if type_id == 3
    then ok (canonical blob_text body)
    else if type_id == 4
    then ok (canonical tag_text body)
    else err (pack "packfile: delta base has non-object type")

-- The target of a delta on a resolved base, and what the memo is then.
abbrev pub on_base : Result GitError (Resolved × Memo) → Bytes → Result GitError (Resolved × Memo)
on_base (err e) delta = err e
on_base (ok ((base_type, base_body), memo)) delta = elim (returned (apply_delta base_body delta)) [
  | err e ↦ err e
  | ok body ↦ ok ((base_type, body), memo)
]

abbrev pub remembered : ℕ → Result GitError (Resolved × Memo) → Result GitError (Resolved × Memo)
remembered offset (err e) = err e
remembered offset (ok (r, memo)) = ok (r, insert memo offset r)

module _ (inflate : Bytes → Result GitError (Bytes × ℕ)) where
  -- What is inflated has to have the size that the header says.
  unfoldable pub inflate_sized : Bytes → ℕ → String → Result GitError Bytes
  inflate_sized rest size reason = do
    (contents, consumed) ← inflate rest
    if length contents == size then ok contents else err (pack reason)

  unfoldable pub ofs_entry : (offset size : ℕ) → Bytes → Result GitError RawEntry
  unfolding read_ofs_delta_offset inflate_sized
  ofs_entry offset size rest = do
    (neg, rest') ← read_ofs_delta_offset rest
    base_offset ←
        ok_or (checked_sub offset neg) (pack "packfile: ofs-delta base before start of pack")
    delta ← inflate_sized rest' size "packfile: delta size mismatch"
    ok (ofs_delta base_offset delta)

  unfoldable pub ref_entry : (size : ℕ) → Bytes → Result GitError RawEntry
  unfolding take_oid inflate_sized
  ref_entry size rest = do
    (base_oid, rest') ← take_oid rest
    delta ← inflate_sized rest' size "packfile: delta size mismatch"
    ok (ref_delta base_oid delta)

  -- The match on the type.
  unfoldable pub entry_of_type : (offset type_id size : ℕ) → Bytes → Result GitError RawEntry
  unfolding inflate_sized ofs_entry ref_entry
  entry_of_type offset type_id size rest =
      if is_whole type_id
      then (do
        contents ← inflate_sized rest size "packfile: object size mismatch"
        ok (base_entry type_id contents))
      else if type_id == obj_ofs_delta
      then ofs_entry offset size rest
      else if type_id == obj_ref_delta
      then ref_entry size rest
      else err (pack "packfile: unknown object type")

  unfoldable pub parse_entry_at : Bytes → ℕ → Result GitError RawEntry
  unfolding read_entry_header entry_of_type
  parse_entry_at bytes offset = do
    (type_id, size, rest) ← read_entry_header (drop offset bytes)
    entry_of_type offset type_id size rest

  -- `left` is how many levels the depth may still grow by, this one included. A failure drops the
  -- memo, as it ends the reading of the pack.
  unfoldable pub resolve :
      (left : ℕ) → Bytes → ℕ → Assoc GitOid ℕ → Memo → Result GitError (Resolved × Memo)
  unfolding parse_entry_at
  resolve zero bytes offset oids memo = elim (get memo offset) [
    | some cached ↦ ok (cached, memo)
    | none ↦ err (pack "packfile: delta chain too deep (possible cycle)")
  ]
  resolve (suc left) bytes offset oids memo = elim (get memo offset) [
    | some cached ↦ ok (cached, memo)
    | none ↦ remembered offset (elim (parse_entry_at bytes offset) [
      | err e ↦ err e
      | ok (base_entry type_id contents) ↦ ok ((type_id, contents), memo)
      | ok (ofs_delta base_offset delta) ↦ on_base (resolve left bytes base_offset oids memo) delta
      | ok (ref_delta base_oid delta) ↦ elim (get oids base_oid) [
        | none ↦ err (pack "packfile: ref-delta base not in this pack")
        | some base_offset ↦ on_base (resolve left bytes base_offset oids memo) delta
      ]
    ])
  ]
