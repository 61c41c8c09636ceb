-- ===== src/Git/Gate.antt =====
-- crates/omoplata-git/src/gate.rs: the gate that every object of a git repository passes. The objects
-- that the loose files and the packs give, each with the oid that it was addressed by, and the number of
-- packs are arguments; SHA-1 is a parameter.
pub mod Passed
use omoplata.Prelude.{
  ℕ, suc, ◌+◌, String, Bool, true, false, Option, none, some, List, [], ◌∷◌, ◌==◌, nat_eq, list_eq,
  Result, ok, err, ◌>>=◌, ◌&&◌, if◌then◌else◌,
}
use omoplata.Git.Bytes.{Bytes}
use omoplata.Git.Error.{GitError, roundtrip, oid_mismatch, empty_repository}
use omoplata.Git.Object.{GitObject, encode_object, decode_object, oid_of}
use omoplata.Git.Oid.{hex_encode}
use omoplata.Work.Autorebase.{text_of}

pub record GitReport : Type 0 where
  pub blobs : ℕ
  pub trees : ℕ
  pub commits : ℕ
  pub tags : ℕ
  pub packfiles : ℕ

abbrev pub total : GitReport → ℕ
total report = report.blobs + report.trees + report.commits + report.tags

unfoldable pub tally : GitReport → GitObject → GitReport
tally report (GitObject.blob b) = record report { blobs = suc report.blobs }
tally report (GitObject.tree entries) = record report { trees = suc report.trees }
tally report (GitObject.commit c) = record report { commits = suc report.commits }
tally report (GitObject.tag t) = record report { tags = suc report.tags }

module _ (sha1 : Bytes → Bytes) where
  unfoldable pub roundtrip_ok : Bytes → Result GitError Bytes
  roundtrip_ok bytes = do
    object ← decode_object bytes
    if encode_object object == bytes
        then ok (oid_of sha1 object)
        else err (roundtrip (text_of (hex_encode (oid_of sha1 object))))

  -- A round of the two loops of `verify_repo`.
  unfoldable pub gate_object : Bytes → GitObject → GitReport → Result GitError GitReport
  unfolding roundtrip_ok tally
  gate_object addressed object report = do
    gate_oid ← roundtrip_ok (encode_object object)
    if gate_oid == addressed
        then ok (tally report object)
        else err (oid_mismatch (text_of (hex_encode addressed)) (text_of (hex_encode gate_oid)))

  unfoldable pub gate_objects : List (Bytes × GitObject) → GitReport → Result GitError GitReport
  unfolding gate_object
  gate_objects [] report = ok report
  gate_objects ((addressed, object) ∷ objects) report =
      gate_object addressed object report >>= λ report'. gate_objects objects report'

  -- Behind the resolution of the path to a git directory.
  unfoldable pub verify_repo :
      String → ℕ → List (Bytes × GitObject) → List (Bytes × GitObject) → Result GitError GitReport
  unfolding gate_objects
  verify_repo path packs loose packed = do
    report ←
        gate_objects loose
          (record { blobs = 0; trees = 0; commits = 0; tags = 0; packfiles = packs })
    report' ← gate_objects packed report
    if (total report' == 0) && (report'.packfiles == 0)
        then err (empty_repository path)
        else ok report'
