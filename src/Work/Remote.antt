-- ===== src/Work/Remote.antt =====
-- crates/omoplata-work/src/remote.rs: the registry of remotes, and the copy of the objects that a root
-- reaches from one store into another. Paths are texts.
pub mod Closure
pub mod Ends
use omoplata.Prelude.{
  ℕ, zero, suc, ◌+◌, String, Bool, true, false, Option, none, some, List, [], ◌∷◌, ◌++◌, ◌==◌,
  string_eq, Result, ok, err, ◌>>=◌, ok_or, if◌then◌else◌,
}
use omoplata.Git.Bytes.{Bytes}
use omoplata.Store.Error.{StoreError}
use omoplata.Store.Ids.{ObjectId}
use omoplata.Store.Trees.{TreeEntry, Tree}
use omoplata.Store.Object.{Object}
use omoplata.Store.Repository.{Repository, has_object, read_object, write_object}
use omoplata.Work.Error.{WorkError, remote_exists, unknown_remote}

pub record Remote : Type 0 where
  pub name : String
  pub path : String
  pub token : Option String

pub record RemoteRegistry : Type 0 where
  pub remotes : List Remote

-- `self.remotes.iter().find(|r| r.name == name)`
unfoldable pub find_remote : List Remote → String → Option Remote
find_remote [] name = none
find_remote (r ∷ remotes) name =
    let rest = find_remote remotes name in if r.name == name then some r else rest

abbrev pub remote_named : RemoteRegistry → String → Option Remote
unfolding find_remote
remote_named registry name = find_remote registry.remotes name

-- A registration, where no remote has the name yet.
abbrev pub add_remote_if : RemoteRegistry → Remote → Option Remote → Result WorkError RemoteRegistry
add_remote_if registry remote (some old) = err (remote_exists remote.name)
add_remote_if registry remote none = ok (record { remotes = registry.remotes ++ remote ∷ [] })

unfoldable pub add_remote :
    RemoteRegistry → String → String → Option String → Result WorkError RemoteRegistry
unfolding find_remote
add_remote registry name path token =
    add_remote_if registry (record { name = name; path = path; token = token })
      (find_remote registry.remotes name)

abbrev pub keep_remote : Remote → Option (Remote × List Remote) → Option (Remote × List Remote)
keep_remote r none = none
keep_remote r (some (removed, remotes)) = some (removed, r ∷ remotes)

-- The first remote of the name, and the others.
unfoldable pub take_remote : List Remote → String → Option (Remote × List Remote)
take_remote [] name = none
take_remote (r ∷ remotes) name =
    let rest = take_remote remotes name in
    if r.name == name then some (r, remotes) else keep_remote r rest

unfoldable pub remove_remote : RemoteRegistry → String → Result WorkError (Remote × RemoteRegistry)
unfolding take_remote
remove_remote registry name = do
  (removed, remotes) ← ok_or (take_remote registry.remotes name) (unknown_remote name)
  ok (removed, record { remotes = remotes })

-- The entries of a tree on top of the stack, the last of them first.
unfoldable pub push_entries : Tree → List ObjectId → List ObjectId
push_entries [] stack = stack
push_entries (e ∷ entries) stack = push_entries entries (e.id ∷ stack)

unfoldable pub enqueue : Object → List ObjectId → List ObjectId
unfolding push_entries
enqueue (Object.blob bytes) stack = stack
enqueue (Object.tree entries) stack = push_entries entries stack

module _ (hash : Bytes → Bytes) where
  -- An object that the destination is missing is written, and counted.
  abbrev pub copy_missing : Bool → Repository → ℕ → Object → Repository × ℕ
  copy_missing true to copied object = (to, copied)
  copy_missing false to copied object = ((write_object hash to object).0, suc copied)

  -- The loop of `copy_closure`, with the top of the stack at the head; `none` means that the fuel ran
  -- out.
  unfoldable pub copy_loop :
      ℕ → Repository → Repository → ℕ → List ObjectId → Option (Result StoreError (Repository × ℕ))
  copy_loop fuel from to copied [] = some (ok (to, copied))
  copy_loop zero from to copied (id ∷ stack) = none
  copy_loop (suc fuel) from to copied (id ∷ stack) = elim (read_object hash from id) [
    | err e ↦ some (err e)
    | ok object ↦
        let (to', copied') = copy_missing (has_object to id) to copied object in
        copy_loop fuel from to' copied' (enqueue object stack)
  ]

  -- With as many rounds as the fuel gives.
  unfoldable pub copy_closure :
      ℕ → Repository → Repository → ObjectId → Option (Result StoreError (Repository × ℕ))
  unfolding copy_loop
  copy_closure fuel from to root = copy_loop fuel from to 0 (root ∷ [])
