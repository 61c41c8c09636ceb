-- ===== src/Git/Error.antt =====
-- crates/omoplata-git/src/error.rs: the errors of the git layer. A path, and an error of another
-- library that one carries, are texts; an id that was not understood is its bytes.
use omoplata.Prelude.{String, Option, none, some, Result, err}
use omoplata.Git.Bytes.{Bytes}

pub data GitError : Type 0 where
  decode : String → GitError
  roundtrip : String → GitError
  oid_mismatch : (expected got : String) → GitError
  bad_loose_path : String → GitError
  unsupported_mode : String → GitError
  missing_object : String → GitError
  pack : String → GitError
  bad_ref : (name reason : String) → GitError
  malformed_oid : Bytes → GitError
  not_a_repository : String → GitError
  empty_repository : String → GitError
  zlib : String → GitError
  wire_proto : String → GitError
  wire : String → GitError
  io : (path source : String) → GitError
  store : String → GitError
  object : String → GitError

-- What a loop with fuel enough returns; without, which theorems on each such loop rule out, it would
-- be an error that no loop gives itself.
abbrev pub returned : {A : Type 0} → Option (Result GitError A) → Result GitError A
returned (some r) = r
returned none = err (object "out of fuel")
