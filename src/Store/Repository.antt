-- ===== src/Store/Repository.antt =====
-- crates/omoplata-store/src/lib.rs: the repository, a directory of objects at paths that their ids
-- name. The file system is the map of the paths to the files' bytes; its failures are not modelled.
pub mod Paths
pub mod Integrity
use omoplata.Prelude.{
  ℕ, String, Bool, true, false, ◌&&◌, Option, none, some, List, [], ◌∷◌, ◌++◌, take, drop, ◌==◌,
  nat_eq, list_eq, Assoc, get, insert, Result, ok, err, ◌>>=◌, ok_or, if◌then◌else◌,
}
use omoplata.Git.Bytes.{Bytes}
use omoplata.Git.Oid.{hex_encode}
use omoplata.Store.Error.{
  ObjectError, StoreError, already_initialized, not_initialized, object_not_found, integrity,
}
use omoplata.Store.Ids.{ObjectId, alg_str, id_to_string}
use omoplata.Store.Object.{Object, serialize, deserialize, id_with, id_of}

-- The files under `objects/` in the control directory.
pub record Repository : Type 0 where
  pub files : Assoc Bytes Bytes

-- What stands at `.omoplata` under a root.
pub data Control : Type 0 where
  absent : Control
  other_file : Control
  directory : Repository → Control

unfoldable pub init : String → Control → Result StoreError Repository
init root absent = ok (record { files = [] })
init root other_file = err (already_initialized root)
init root (directory repo) = err (already_initialized root)

-- `Repository::open`
unfoldable pub open_at : String → Control → Result StoreError Repository
open_at root (directory repo) = ok repo
open_at root absent = err (not_initialized root)
open_at root other_file = err (not_initialized root)

unfoldable pub is_repository : Control → Bool
is_repository (directory repo) = true
is_repository absent = false
is_repository other_file = false

-- `<alg>/<xx>/<rest>`
unfoldable pub object_path : ObjectId → Bytes
unfolding alg_str
object_path id =
    let hex = hex_encode id.digest in alg_str id.alg ++ b'/' ∷ (take 2 hex ++ b'/' ∷ drop 2 hex)

unfoldable pub has_object : Repository → ObjectId → Bool
unfolding object_path
has_object repo id = elim (get repo.files (object_path id)) [ some bytes ↦ true | none ↦ false ]

abbrev pub object_error : {A : Type 0} → Result ObjectError A → Result StoreError A
object_error (ok a) = ok a
object_error (err e) = err (StoreError.object e)

-- The test on ids, whose algorithm is always the same.
abbrev pub same_id : ObjectId → ObjectId → Bool
same_id a b = (alg_str a.alg == alg_str b.alg) && (a.digest == b.digest)

-- Nothing is written where a file stands at the path.
abbrev pub write_at : Repository → Bytes → Bytes → Option Bytes → Repository
write_at repo path bytes (some old) = repo
write_at repo path bytes none = record { files = insert repo.files path bytes }

module _ (hash : Bytes → Bytes) where
  unfoldable pub write_object : Repository → Object → Repository × ObjectId
  unfolding object_path serialize
  write_object repo object =
      let id = id_of hash object in
      let path = object_path id in (write_at repo path (serialize object) (get repo.files path), id)

  abbrev pub write_blob : Repository → Bytes → Repository × ObjectId
  write_blob repo bytes = write_object repo (Object.blob bytes)

  abbrev pub check_id : ObjectId → Object → Result StoreError Object
  check_id id object =
      if same_id (id_with hash id.alg object) id
      then ok object
      else err (integrity (id_to_string id))

  unfoldable pub read_object : Repository → ObjectId → Result StoreError Object
  unfolding object_path
  read_object repo id = do
    bytes ← ok_or (get repo.files (object_path id)) (object_not_found (id_to_string id))
    object ← object_error (deserialize bytes)
    check_id id object
