-- ===== src/Git/Pack/Reader/Verified.antt =====
-- What a pack gives: the objects of its index, in order, each checked against its oid.
use mathlib.Core.List.{append_assoc, append-nil}
use omoplata.Prelude.{
  ◌≡◌, refl, ap, sym, ◌∙◌, inl, inr, ℕ, ◌+◌, List, [], ◌∷◌, ◌++◌, length, ◌==◌, nat_eq, list_eq,
  eq→eq, Assoc, get, Result, ok, bind-ok, ok-inj, Bool-cases, arith,
}
use omoplata.Git.Bytes.{Bytes}
use omoplata.Git.Error.{GitError}
use omoplata.Git.Object.{GitObject, decode_object}
use omoplata.Git.Oid.{GitOid}
use omoplata.Git.Pack.Entries.{Resolved, Memo, max_delta_depth, peek_type, canonical_bytes, resolve}
use omoplata.Git.Pack.Entries.Chains.{Denotes, IsSound, resolve-Denotes}
use omoplata.Git.Pack.Index.{parse_idx, parse_pack_header}
use omoplata.Git.Pack.Reader.{
  PackDecode, counted, oid_offsets, verified, read_entry, read_entries, read_indexed,
  read_pack_detailed,
}

module _ (inflate : Bytes → Result GitError (Bytes × ℕ)) (sha1 : Bytes → Bytes)
    (bytes : Bytes) where
  -- An entry of the index and the object that came of it: what the chain of the entry denotes has, in
  -- its canonical form, the oid of the index as its hash, and is decoded to the object.
  abbrev pub IsVerified : Assoc GitOid ℕ → GitOid × ℕ → GitOid × GitObject → Type 0
  IsVerified oids (oid, offset) (oid', object) =
      (r : Resolved) × (canonical : Bytes) × Denotes inflate bytes oids offset r
      × (canonical_bytes r.0 r.1 ≡ ok canonical)
      × (sha1 canonical ≡ oid)
      × (decode_object canonical ≡ ok object)
      × (oid' ≡ oid)

  abbrev pub AreVerified : Assoc GitOid ℕ → List (GitOid × ℕ) → List (GitOid × GitObject) → Type 0
  AreVerified oids [] [] = Unit
  AreVerified oids (entry ∷ index) (object ∷ objects) =
      IsVerified oids entry object × AreVerified oids index objects
  AreVerified oids _ _ = ⊥

  verified-ok :
      (oid : GitOid) (canonical : Bytes) (object : GitObject)
      → verified inflate sha1 oid canonical ≡ ok object
      → (sha1 canonical ≡ oid) × (decode_object canonical ≡ ok object)
  unfolding verified
  verified-ok oid canonical object h = elim (Bool-cases (sha1 canonical == oid)) [
    | inl same ↦ (eq→eq (sha1 canonical) oid same, rw same at h)
    | inr other ↦ let h' = rw other at h in absurd (cc (h'))
  ]

  counted-objects : (type_id : ℕ) (out : PackDecode) → (counted type_id out).objects ≡ out.objects
  counted-objects type_id out = ground arith

  read_entry-IsVerified :
      (oids : Assoc GitOid ℕ) (entry : GitOid × ℕ) (memo memo' : Memo) (out out' : PackDecode)
      → IsSound inflate bytes oids memo
      → read_entry inflate sha1 bytes oids entry (memo, out) ≡ ok (memo', out')
      → IsSound inflate bytes oids memo'
        × (object : GitOid × GitObject) × IsVerified oids entry object
        × (out'.objects ≡ out.objects ++ object ∷ [])
  unfolding read_entry
  read_entry-IsVerified oids (oid, offset) memo memo' out out' sound h =
      let (type_id, e1, h1) = bind-ok (peek_type bytes offset) _ h in
      let ((r, memo1), e2, h2) =
        bind-ok (resolve inflate (max_delta_depth + 1) bytes offset oids memo) _ h1 in
      let (canonical, e3, h3) = bind-ok (canonical_bytes r.0 r.1) _ h2 in
      let (object, e4, h4) = bind-ok (verified inflate sha1 oid canonical) _ h3 in
      let (denotes, sound1) =
        resolve-Denotes inflate bytes oids (max_delta_depth + 1) offset memo memo1 r sound e2 in
      let (hash, decoded) = verified-ok oid canonical object e4 in
      let same = ok-inj h4 in
      (
        rw (← ap (λ p. p.0) same) sound1,
        (oid, object),
        (r, canonical, denotes, e3, hash, decoded, refl),
        sym (ap (λ (p : Memo × PackDecode). p.1.objects) same)
            ∙ ap (λ (os : List (GitOid × GitObject)). os ++ (oid, object) ∷ [])
                (counted-objects type_id out),
      )

  read_entries-AreVerified :
      (oids : Assoc GitOid ℕ) (index : List (GitOid × ℕ)) (memo memo' : Memo)
      (out out' : PackDecode)
      → IsSound inflate bytes oids memo
      → read_entries inflate sha1 bytes oids index (memo, out) ≡ ok (memo', out')
      → (objects : List (GitOid × GitObject)) × AreVerified oids index objects
        × (out'.objects ≡ out.objects ++ objects)
  unfolding read_entries
  read_entries-AreVerified oids [] memo memo' out out' sound h = (
    [],
    tt,
    sym (ap (λ (p : Memo × PackDecode). p.1.objects) (ok-inj h)) ∙ sym (append-nil out.objects),
  )
  read_entries-AreVerified oids (entry ∷ index) memo memo' out out' sound h =
      let ((memo1, out1), e1, h1) =
        bind-ok (read_entry inflate sha1 bytes oids entry (memo, out)) _ h in
      let (sound1, object, one, grown) =
        read_entry-IsVerified oids entry memo memo1 out out1 sound e1 in
      let (objects, more, grown') =
        read_entries-AreVerified oids index memo1 memo' out1 out' sound1 h1 in
      (
        object ∷ objects,
        (one, more),
        grown'
            ∙ ap (λ (os : List (GitOid × GitObject)). os ++ objects) grown
            ∙ append_assoc out.objects (object ∷ []) objects,
      )

  pub empty-IsSound : (oids : Assoc GitOid ℕ) → IsSound inflate bytes oids []
  unfolding get
  empty-IsSound oids offset r h = absurd (cc (h))

  -- A pack that was read gives one object for each entry of its index, in the order of the index:
  -- the chain of deltas at the offset of the entry denotes bytes whose canonical form hashes to the
  -- oid of the entry and is decoded to the object. The header of the pack counts as many.
  pub read_pack_detailed-AreVerified :
      (idx : Bytes) (d : PackDecode)
      → read_pack_detailed inflate sha1 idx bytes ≡ ok d
      → (index : List (GitOid × ℕ)) × (parse_idx idx ≡ ok index)
        × (parse_pack_header bytes ≡ ok (length index))
        × AreVerified (oid_offsets [] index) index d.objects
  unfolding read_pack_detailed read_indexed
  read_pack_detailed-AreVerified idx d h =
      let (index, e1, h1) = bind-ok (parse_idx idx) _ h in
      let (count, e2, h2) = bind-ok (parse_pack_header bytes) _ h1 in
      elim (Bool-cases (count == length index)) [
        | inr other ↦ let h3 = rw (read_indexed, other) at h2 in absurd (cc (h3))
        | inl same ↦
            let ((memo, out), e3, h3) =
              bind-ok (read_entries inflate sha1 bytes (oid_offsets [] index) index start)
                (λ (p : Memo × PackDecode). ok p.1) (rw (read_indexed, same) at h2) in
            let (objects, all, grown) =
              read_entries-AreVerified (oid_offsets [] index) index [] memo start.1 out
                (empty-IsSound (oid_offsets [] index)) e3 in
            (
              index,
              e1,
              e2 ∙ ap ok (eq→eq count (length index) same),
              rw (← ap (λ (k : PackDecode). k.objects) (ok-inj h3), grown) all,
            )
      ]
    where
      start : Memo × PackDecode
      start = ([], record { objects = []; ofs_deltas = 0; ref_deltas = 0 })
