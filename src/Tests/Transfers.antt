-- ===== src/Tests/Transfers.antt =====
-- The snapshots of working directories and the copies between stores at concrete inputs.
use omoplata.Work.Remote.Ends.{IsRanked}
use omoplata.Store.Repository.Integrity.{read_object-id_with}
use omoplata.Store.Error.{ObjectError, object_not_found}
use omoplata.Store.Repository.Paths.{alg_unique}
use omoplata.Prelude.{
  Assoc, ◌<◌, All, if◌then◌else◌, ◌⊎◌, inl, inr, ap, sym, ◌∙◌, get-insert, ◌==◌, Bool-cases,
  bind-ok, ok_or, ok-inj, none, ◌≡◌, refl, ℕ, ◌≤◌, Bool, true, false, Option, some, [], ◌∷◌, get,
  insert, nat_eq, list_eq, string_eq, Result, ok, err, arith,
}
use omoplata.Git.Bytes.{Bytes, utf8_from, from_str_radix16}
use omoplata.Git.Oid.{hex_encode}
use omoplata.Git.Text.{find_byte, to_decimal, parse_usize, split_lines}
use omoplata.Identity.Change.{CommitId}
use omoplata.Store.Error.{StoreError}
use omoplata.Store.Ids.{HashAlg, sha256, ObjectId, id_to_string, parse_id}
use omoplata.Store.Trees.{TreeEntry, EntryKind, Tree, tree_insert, insert_entry}
use omoplata.Store.Object.{Object, serialize, deserialize, id_with, id_of, of_kind, entry_lines}
use omoplata.Store.Repository.{
  same_id, object_error, Repository, object_path, has_object, read_object, write_object,
}
use omoplata.Store.Text.{as_bytes, from_utf8}
use omoplata.Tests.Autorebase.{sum_hash}
use omoplata.Work.Error.{WorkError}
use omoplata.Work.OpLog.{OpLog, new_log, next_seq, refs_now, u64_max}
use omoplata.Work.OpLog.Activity.{IsLog, empty}
use omoplata.Work.Remote.{copy_closure, copy_loop, push_entries, enqueue}
use omoplata.Work.Remote.Closure.{Reaches, copy_closure-Reaches}
use omoplata.Work.Remote.Ends.{copy_closure-ends}
use omoplata.Work.Workspace.{Workspace, file, dir, FsEntries, end, entry, auto_snapshot}
use omoplata.Work.Workspace.Again.{auto_snapshot_again}

abbrev no_files : Repository
no_files = record { files = [] }

abbrev greeting : Object
greeting = Object.blob (b'h' ∷ [])

abbrev with_greeting : Repository
with_greeting = (write_object sum_hash no_files greeting).0

abbrev listing : Tree
listing = record { name = b'a' ∷ []; kind = EntryKind.blob; id = id_of sum_hash greeting } ∷ []

abbrev source : Repository
source = (write_object sum_hash with_greeting (Object.tree listing)).0

abbrev root : ObjectId
root = id_of sum_hash (Object.tree listing)

copied : Option (Result StoreError (Repository × ℕ))
unfolding copy_closure
copied = copy_closure sum_hash 2 source no_files root

abbrev working_copy : FsEntries
working_copy =
    entry (b'a' ∷ []) (file (b'h' ∷ []))
      (entry (b'.' ∷ b'g' ∷ b'i' ∷ b't' ∷ []) (dir end) (entry (b'd' ∷ []) (dir end) end))

abbrev workspace : Workspace
workspace = record { name = "w1"; working_dir = "/w1"; change = "ws/w1" }

taken : Result WorkError (Repository × OpLog × CommitId × Bool)
unfolding auto_snapshot
taken = auto_snapshot sum_hash no_files new_log workspace working_copy

abbrev both_files : Repository
both_files =
    (write_object sum_hash (write_object sum_hash no_files (Object.tree listing)).0 greeting).0

copied-ok : copied ≡ some (ok (both_files, 2))
unfolding copied copy_closure copy_loop push_entries enqueue has_object find_byte as_bytes from_utf8
    utf8_from id_to_string write_object id_with hex_encode to_decimal read_object get insert
    deserialize parse_usize of_kind object_path sum_hash entry_lines split_lines parse_id
    from_str_radix16 tree_insert insert_entry
copied-ok = refl

ran_copy : copy_closure sum_hash 2 source no_files root ≡ some (ok (both_files, 2))
unfolding copied copy_closure
ran_copy = copied-ok

copy_closure-Reaches_example :
    ((last : ObjectId) → Reaches sum_hash source root last → has_object both_files last ≡ true)
    × ((id : ObjectId) → has_object no_files id ≡ true → has_object both_files id ≡ true)
copy_closure-Reaches_example =
    copy_closure-Reaches sum_hash 2 source no_files both_files root 2 ran_copy

stored_tree : deserialize (serialize (Object.tree listing)) ≡ ok (Object.tree listing)
unfolding find_byte as_bytes from_utf8 utf8_from id_to_string id_with hex_encode to_decimal
    deserialize parse_usize of_kind sum_hash entry_lines split_lines parse_id from_str_radix16
    tree_insert insert_entry
stored_tree = refl

stored_blob : deserialize (serialize greeting) ≡ ok greeting
unfolding find_byte to_decimal deserialize parse_usize of_kind serialize utf8_from
stored_blob = refl

abbrev blob_path : Bytes
unfolding object_path
blob_path = object_path (id_of sum_hash greeting)

abbrev blob_bytes : Bytes
unfolding serialize
blob_bytes = serialize greeting

abbrev tree_path : Bytes
unfolding object_path
tree_path = object_path root

abbrev tree_bytes : Bytes
unfolding serialize
tree_bytes = serialize (Object.tree listing)

source_files : source.files ≡ insert (insert [] blob_path blob_bytes) tree_path tree_bytes
unfolding write_object get insert id_with hex_encode sum_hash to_decimal entry_lines id_to_string
    object_path serialize
source_files = refl

written : (old bytes : Bytes) → some old ≡ some bytes → bytes ≡ old
written old bytes h = cc (h)

in_files :
    (path bytes : Bytes)
    → get (insert (insert [] blob_path blob_bytes) tree_path tree_bytes) path ≡ some bytes
    → (bytes ≡ tree_bytes) ⊎ (bytes ≡ blob_bytes)
unfolding get
in_files path bytes h =
    let outer = get-insert (insert [] blob_path blob_bytes) tree_path path tree_bytes in
    let inner = get-insert [] blob_path path blob_bytes in
    elim (Bool-cases (tree_path == path)) [
      | inl same ↦ inl (written _ _ (sym (rw (same) at (outer)) ∙ h))
      | inr other ↦ elim (Bool-cases (blob_path == path)) [
        | inl same ↦
            inr (written _ _ (sym (rw (same) at (inner)) ∙ sym (rw (other) at (outer)) ∙ h))
        | inr apart ↦ absurd (cc (sym (rw (apart) at (inner)) ∙ sym (rw (other) at (outer)) ∙ h))
      ]
    ]

object_in :
    (o : Object) (bytes : Bytes)
    → deserialize bytes ≡ ok o
    → (bytes ≡ tree_bytes) ⊎ (bytes ≡ blob_bytes)
    → (o ≡ Object.tree listing) ⊎ (o ≡ greeting)
unfolding tree_bytes serialize
object_in o bytes h (inl one) = inl (ok-inj (sym h ∙ ap deserialize one ∙ stored_tree))
object_in o bytes h (inr one) = inr (ok-inj (sym h ∙ ap deserialize one ∙ stored_blob))

found_file :
    (x : Option Bytes) (e : StoreError) (bytes : Bytes) → ok_or x e ≡ ok bytes → x ≡ some bytes
found_file (some old) e bytes h = ap some (ok-inj h)
found_file none e bytes h = absurd (cc (h))

parsed_file : (r : Result ObjectError Object) (o : Object) → object_error r ≡ ok o → r ≡ ok o
parsed_file (ok old) o h = ap ok (ok-inj h)
parsed_file (err e) o h = absurd (cc (h))

source_objects :
    (id : ObjectId) (o : Object)
    → read_object sum_hash source id ≡ ok o
    → (o ≡ Object.tree listing) ⊎ (o ≡ greeting)
unfolding read_object
source_objects id o h =
    let (bytes, e1, h1) =
      bind-ok (ok_or (get source.files (object_path id)) (object_not_found (id_to_string id))) _
        h in
    let (o', e2, h2) = bind-ok (object_error (deserialize bytes)) _ h1 in
    elim (Bool-cases (same_id (id_with sum_hash id.alg o') id)) [
      | inl same ↦
          let one : o' ≡ o = ok-inj (sym (rw (same) refl) ∙ h2) in
          object_in o bytes (parsed_file (deserialize bytes) o' e2 ∙ ap ok one) (
            in_files (object_path id) bytes (
              ap (λ (files : Assoc Bytes Bytes). get files (object_path id)) (sym source_files)
              ∙ found_file _ _ bytes e1))
      | inr other ↦ absurd (ground arith)
    ]

abbrev height : ObjectId → ℕ
height id = if id.digest == root.digest then 1 else 0

height-leaf : height (id_of sum_hash greeting) ≡ 0
unfolding id_with hex_encode sum_hash to_decimal entry_lines id_to_string serialize
height-leaf = refl

height-root : height root ≡ 1
unfolding id_with hex_encode sum_hash to_decimal entry_lines id_to_string serialize
height-root = refl

listing-IsLow :
    (id : ObjectId) (entries : Tree)
    → entries ≡ listing
    → id ≡ root
    → All (λ (e : TreeEntry). height e.id < height id) entries
listing-IsLow id entries same top =
    rw (same, top) ((rw (height-leaf, height-root) (omega arith)), tt)

source-IsRanked : IsRanked sum_hash source height
source-IsRanked id entries h = elim (source_objects id (Object.tree entries) h) [
  | inl one ↦ listing-IsLow id entries (cc (one)) (
      sym (read_object-id_with sum_hash source id (Object.tree entries) h)
      ∙ ap (λ (alg : HashAlg). id_with sum_hash alg (Object.tree entries))
          (alg_unique id.alg sha256)
      ∙ ap (id_of sum_hash) one)
  | inr two ↦ absurd (cc (two))
]

copy_closure-ends_example :
    (fuel : ℕ) × (r : Result StoreError (Repository × ℕ)) × (copy_closure sum_hash fuel source
        no_files root
      ≡ some r)
copy_closure-ends_example = copy_closure-ends sum_hash source height no_files root source-IsRanked

abbrev taken_commit : CommitId
taken_commit = "sha256:0000000000000000000000000000000000000000000000000000000000000049"

abbrev taken_state : Repository × OpLog
unfolding taken
taken_state = elim taken [
  | ok (repo, log, commit, made) ↦ (repo, log)
  | err e ↦ (no_files, new_log)
]

taken-ok : taken ≡ ok (taken_state.0, taken_state.1, taken_commit, true)
unfolding taken auto_snapshot has_object find_byte as_bytes from_utf8 utf8_from id_to_string
    write_object id_with hex_encode to_decimal read_object get insert deserialize parse_usize
    of_kind object_path tree_insert sum_hash entry_lines insert_entry refs_now
taken-ok = refl

snapshotted :
    auto_snapshot sum_hash no_files new_log workspace working_copy
    ≡ ok (taken_state.0, taken_state.1, taken_commit, true)
unfolding taken
snapshotted = taken-ok

new-IsLog : IsLog 0 new_log.ops
new-IsLog = empty

new-short : next_seq new_log ≤ u64_max
new-short = omega arith

auto_snapshot_again_example :
    ((repo'' : Repository) × (auto_snapshot sum_hash taken_state.0 taken_state.1 workspace
          working_copy
        ≡ ok (repo'', taken_state.1, taken_commit, false)))
    × ((true ≡ true) → get (refs_now taken_state.1) workspace.change ≡ some taken_commit)
auto_snapshot_again_example =
    auto_snapshot_again sum_hash no_files taken_state.0 new_log taken_state.1 workspace working_copy
      taken_commit true new-IsLog new-short snapshotted
