-- ===== src/Git/Gate/Passed.antt =====
-- What a repository that passes the gate holds.
use omoplata.Prelude.{
  ◌≡◌, ◌⊎◌, refl, ap, sym, ◌∙◌, inl, inr, ℕ, suc, ◌+◌, String, Bool, true, false, List, [], ◌∷◌,
  length, All, ◌&&◌, ◌==◌, nat_eq, list_eq, eq→eq, ok, ok-inj, bind-ok, Bool-cases, arith,
}
use omoplata.Git.Bytes.{Bytes}
use omoplata.Git.Object.{GitObject, encode_object, decode_object, oid_of}
use omoplata.Git.Gate.{
  GitReport, total, tally, roundtrip_ok, gate_object, gate_objects, verify_repo,
}

module _ (sha1 : Bytes → Bytes) where
  -- The bytes of the object are read as an object that is written as the same bytes, and they hash to the
  -- oid that the object was addressed by.
  abbrev pub IsGated : Bytes × GitObject → Type 0
  IsGated (addressed, object) =
      (sha1 (encode_object object) ≡ addressed)
      × ((again : GitObject) × (decode_object (encode_object object) ≡ ok again)
          × (encode_object again ≡ encode_object object))

  tally-total :
      (report : GitReport) (object : GitObject)
      → (total (tally report object) ≡ suc (total report))
        × ((tally report object).packfiles ≡ report.packfiles)
  unfolding tally
  tally-total report (GitObject.blob b) = (omega arith, refl)
  tally-total report (GitObject.tree entries) = (omega arith, refl)
  tally-total report (GitObject.commit c) = (omega arith, refl)
  tally-total report (GitObject.tag t) = (omega arith, refl)

  roundtrip_ok_lem :
      (bytes oid : Bytes)
      → roundtrip_ok sha1 bytes ≡ ok oid
      → (sha1 bytes ≡ oid)
        × ((again : GitObject) × (decode_object bytes ≡ ok again) × (encode_object again ≡ bytes))
  unfolding roundtrip_ok oid_of
  roundtrip_ok_lem bytes oid h =
      let (object, e1, h1) = bind-ok (decode_object bytes) _ h in
      elim (Bool-cases (encode_object object == bytes)) [
        | inl same ↦
            let written = eq→eq (encode_object object) bytes same in
            (sym (ap sha1 written) ∙ ok-inj (sym (rw (same) refl) ∙ h1), (object, e1, written))
        | inr other ↦ absurd (ground arith)
      ]

  gate_object-IsGated :
      (addressed : Bytes) (object : GitObject) (report report' : GitReport)
      → gate_object sha1 addressed object report ≡ ok report'
      → IsGated (addressed, object) × (tally report object ≡ report')
  unfolding gate_object
  gate_object-IsGated addressed object report report' h =
      let (oid, e1, h1) = bind-ok (roundtrip_ok sha1 (encode_object object)) _ h in
      let (hashed, again) = roundtrip_ok_lem (encode_object object) oid e1 in
      elim (Bool-cases (oid == addressed)) [
        | inl same ↦
            ((hashed ∙ eq→eq oid addressed same, again), ok-inj (sym (rw (same) refl) ∙ h1))
        | inr other ↦ absurd (ground arith)
      ]

  gate_objects-IsGated :
      (objects : List (Bytes × GitObject)) (report report' : GitReport)
      → gate_objects sha1 objects report ≡ ok report'
      → All IsGated objects
        × (total report' ≡ total report + length objects)
        × (report'.packfiles ≡ report.packfiles)
  unfolding gate_objects
  gate_objects-IsGated [] report report' h =
      let same = ok-inj h in
      (tt, ap total (sym same) ∙ omega arith, ap (λ (r : GitReport). r.packfiles) (sym same))
  gate_objects-IsGated ((addressed, object) ∷ objects) report report' h =
      let (next, e1, h1) = bind-ok (gate_object sha1 addressed object report) _ h in
      let (one, counted) = gate_object-IsGated addressed object report next e1 in
      let (all, sum, packs) = gate_objects-IsGated objects next report' h1 in
      let (more, same) = tally-total report object in
      let step = ap total (sym counted) ∙ more in
      (
        (one, all),
        sum ∙ ap (λ (n : ℕ). n + length objects) step ∙ omega arith,
        packs ∙ ap (λ (r : GitReport). r.packfiles) (sym counted) ∙ same,
      )

  not_both : (a b : Bool) → (a && b) ≡ false → (a ≡ false) ⊎ (b ≡ false)
  not_both true b h = inr h
  not_both false b h = inl refl

  -- A repository passes only where each of its objects, loose or packed, is read back from its bytes as
  -- an object with the same bytes, whose hash is the oid that it was addressed by; the report counts all
  -- of them, and there is an object or a pack.
  pub verify_repo-IsGated :
      (path : String) (packs : ℕ) (loose packed : List (Bytes × GitObject)) (report : GitReport)
      → verify_repo sha1 path packs loose packed ≡ ok report
      → (All IsGated loose × All IsGated packed)
        × (total report ≡ length loose + length packed)
        × (((total report == 0) ≡ false) ⊎ ((packs == 0) ≡ false))
  unfolding verify_repo
  verify_repo-IsGated path packs loose packed report h =
      let (r1, e1, h1) = bind-ok (gate_objects sha1 loose _) _ h in
      let (r2, e2, h2) = bind-ok (gate_objects sha1 packed r1) _ h1 in
      let (all1, sum1, packs1) = gate_objects-IsGated loose _ r1 e1 in
      let (all2, sum2, packs2) = gate_objects-IsGated packed r1 r2 e2 in
      elim (Bool-cases ((total r2 == 0) && (r2.packfiles == 0))) [
        | inl nothing ↦ absurd (ground arith)
        | inr some_there ↦
            let same : r2 ≡ report = ok-inj (sym (rw (some_there) refl) ∙ h2) in
            (
              (all1, all2),
              ap total (sym same) ∙ sum2 ∙ ap (λ (n : ℕ). n + length packed) (sum1 ∙ omega arith),
              not_both (total report == 0) (packs == 0) (
                  ap (λ (r : GitReport). (total r == 0) && (packs == 0)) (sym same)
                  ∙ ap (λ (n : ℕ). (total r2 == 0) && (n == 0)) (sym (packs2 ∙ packs1))
                  ∙ some_there),
            )
      ]
