-- ===== src/Git/Pack/Reader.antt =====
-- crates/omoplata-git/src/pack.rs: the reading of a whole pack, with its index or without. The
-- files are their bytes. Inflating and the hash are parameters, as in `Entries`.
pub mod Verified
use omoplata.Prelude.{
  ℕ, zero, suc, ◌+◌, ◌-◌, Bool, true, false, not, Option, none, some, List, [], ◌∷◌, ◌++◌, length,
  drop, leb, ltb, ◌==◌, nat_eq, list_eq, Assoc, get, insert, Result, ok, err, ◌>>=◌, if◌then◌else◌,
}
use omoplata.Git.Bytes.{Bytes}
use omoplata.Git.Error.{GitError, pack}
use omoplata.Git.Object.{GitObject, decode_object}
use omoplata.Git.Oid.{GitOid}
use omoplata.Git.Pack.Entries.{
  Resolved, Memo, is_whole, obj_ofs_delta, obj_ref_delta, max_delta_depth, take_oid, peek_type,
  canonical_bytes, resolve,
}
use omoplata.Git.Pack.Index.{parse_idx, parse_pack_header}
use omoplata.Git.Pack.Sizes.{read_entry_header, read_ofs_delta_offset}

pub record PackDecode : Type 0 where
  pub objects : List (GitOid × GitObject)
  pub ofs_deltas : ℕ
  pub ref_deltas : ℕ

-- The delta kind of an entry, counted.
abbrev pub counted : ℕ → PackDecode → PackDecode
counted type_id out =
    if type_id == obj_ofs_delta
    then record out { ofs_deltas = out.ofs_deltas + 1 }
    else if type_id == obj_ref_delta
    then record out { ref_deltas = out.ref_deltas + 1 }
    else out

abbrev pub oid_offsets : Assoc GitOid ℕ → List (GitOid × ℕ) → Assoc GitOid ℕ
oid_offsets oids [] = oids
oid_offsets oids ((oid, offset) ∷ index) = oid_offsets (insert oids oid offset) index

module _ (inflate : Bytes → Result GitError (Bytes × ℕ)) (sha1 : Bytes → Bytes) where
  -- The object of the canonical bytes, if their hash is the oid of the index.
  unfoldable pub verified : GitOid → Bytes → Result GitError GitObject
  unfolding decode_object
  verified oid canonical =
      if sha1 canonical == oid
      then decode_object canonical
      else err (pack "reconstructed packed object does not match its index oid")

  -- One round of the loop over the index.
  unfoldable pub read_entry :
      Bytes → Assoc GitOid ℕ → GitOid × ℕ → Memo × PackDecode → Result GitError (Memo × PackDecode)
  unfolding peek_type resolve canonical_bytes verified
  read_entry bytes oids (oid, offset) (memo, out) = do
    type_id ← peek_type bytes offset
    (r, memo') ← resolve inflate (max_delta_depth + 1) bytes offset oids memo
    canonical ← canonical_bytes r.0 r.1
    object ← verified oid canonical
    let out' = counted type_id out in
        ok (memo', record out' { objects = out'.objects ++ (oid, object) ∷ [] })

  unfoldable pub read_entries :
      Bytes
      → Assoc GitOid ℕ
      → List (GitOid × ℕ)
      → Memo × PackDecode
      → Result GitError (Memo × PackDecode)
  unfolding read_entry
  read_entries bytes oids [] state = ok state
  read_entries bytes oids (entry ∷ index) state = do
    state' ← read_entry bytes oids entry state
    read_entries bytes oids index state'

  unfoldable pub read_indexed : Bytes → List (GitOid × ℕ) → ℕ → Result GitError PackDecode
  unfolding read_entries
  read_indexed bytes index count =
      if count == length index
      then (do
        (memo, out) ←
            read_entries bytes (oid_offsets [] index) index
              ([], record { objects = []; ofs_deltas = 0; ref_deltas = 0 })
        ok out)
      else err (pack "pack object count does not match index entry count")

  unfoldable pub read_pack_detailed : (idx bytes : Bytes) → Result GitError PackDecode
  unfolding parse_idx parse_pack_header read_indexed
  read_pack_detailed idx bytes = do
    index ← parse_idx idx
    count ← parse_pack_header bytes
    read_indexed bytes index count

  unfoldable pub read_pack : (idx bytes : Bytes) → Result GitError (List (GitOid × GitObject))
  unfolding read_pack_detailed
  read_pack idx bytes = do d ← read_pack_detailed idx bytes; ok d.objects
