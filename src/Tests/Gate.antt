-- ===== src/Tests/Gate.antt =====
-- The gate of git objects at concrete inputs.
use omoplata.Prelude.{
  ◌≡◌, ◌⊎◌, refl, ℕ, ◌+◌, false, List, [], ◌∷◌, All, length, ◌==◌, nat_eq, list_eq, ok,
}
use omoplata.Git.Bytes.{Bytes, utf8_from}
use omoplata.Git.Object.{GitObject, encode_object, decode_object, oid_of}
use omoplata.Git.Text.{find_byte, parse_usize, to_decimal}
use omoplata.Git.Trees.{encode_tree, decode_tree}
use omoplata.Git.Gate.{GitReport, total, tally, verify_repo}
use omoplata.Git.Gate.Passed.{IsGated, verify_repo-IsGated}

abbrev no_hash : Bytes → Bytes
no_hash bytes = bytes

abbrev greeting : GitObject
greeting = GitObject.blob (b'h' ∷ [])

abbrev no_entries : GitObject
no_entries = GitObject.tree []

abbrev loose_files : List (Bytes × GitObject)
unfolding encode_object
loose_files = (encode_object greeting, greeting) ∷ []

abbrev packed_files : List (Bytes × GitObject)
unfolding encode_object
packed_files = (encode_object no_entries, no_entries) ∷ []

abbrev report : GitReport
report = record { blobs = 1; trees = 1; commits = 0; tags = 0; packfiles = 1 }

passed : verify_repo no_hash "/repo" 1 loose_files packed_files ≡ ok report
unfolding verify_repo loose_files packed_files encode_object decode_object find_byte parse_usize
    utf8_from tally to_decimal oid_of encode_tree decode_tree
passed = refl

verify_repo-IsGated_example :
    (All (IsGated no_hash) loose_files × All (IsGated no_hash) packed_files)
    × (total report ≡ length loose_files + length packed_files)
    × (((total report == 0) ≡ false) ⊎ (◌==◌ {A = ℕ} 1 0 ≡ false))
verify_repo-IsGated_example =
    verify_repo-IsGated no_hash "/repo" 1 loose_files packed_files report passed
