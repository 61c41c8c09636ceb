-- ===== src/Work/Workspace.antt =====
-- crates/omoplata-work/src/workspace.rs: the registry of workspaces, and the snapshots of a working
-- directory. A directory is its entries, in the order that the system lists them, each with the bytes
-- of its name; a path is a text. The failures of the file system are not modelled.
pub mod Snapshots
pub mod Again
use Prim.Native.String.{◌++◌ as ◌<>◌}
use omoplata.Prelude.{
  ℕ, String, Bool, true, false, not, ◌||◌, Option, none, some, List, [], ◌∷◌, ◌++◌, ◌==◌, nat_eq,
  list_eq, string_eq, Assoc, get, Result, ok, err, ◌>>=◌, ok_or, if◌then◌else◌,
}
use omoplata.Git.Bytes.{Bytes, is_utf8}
use omoplata.Identity.Change.{ChangeId, CommitId}
use omoplata.Store.Error.{ObjectError}
use omoplata.Store.Ids.{ObjectId, id_to_string}
use omoplata.Store.Trees.{EntryKind, Tree, tree_insert}
use omoplata.Store.Object.{Object}
use omoplata.Store.Repository.{Repository, write_object, write_blob}
use omoplata.Work.Autorebase.{text_of, object_message}
use omoplata.Work.Error.{WorkError, workspace_exists, unknown_workspace}
use omoplata.Work.OpLog.{OpKind, OpLog, append, refs_now}

pub record Workspace : Type 0 where
  pub name : String
  pub working_dir : String
  pub change : ChangeId

pub record WorkspaceRegistry : Type 0 where
  pub workspaces : List Workspace

unfoldable pub find_workspace : List Workspace → String → Option Workspace
find_workspace [] name = none
find_workspace (w ∷ workspaces) name =
    let rest = find_workspace workspaces name in if w.name == name then some w else rest

abbrev pub add_workspace_if :
    WorkspaceRegistry → String → String → Option Workspace → Result WorkError WorkspaceRegistry
add_workspace_if registry name dir (some old) = err (workspace_exists name)
add_workspace_if registry name dir none = ok (record {
  workspaces =
      registry.workspaces ++ record { name = name; working_dir = dir; change = "ws/" <> name } ∷ [];
})

unfoldable pub add_workspace :
    WorkspaceRegistry → String → String → Result WorkError WorkspaceRegistry
unfolding find_workspace
add_workspace registry name dir =
    add_workspace_if registry name dir (find_workspace registry.workspaces name)

abbrev pub keep_workspace : Workspace → Option (List Workspace) → Option (List Workspace)
keep_workspace w none = none
keep_workspace w (some workspaces) = some (w ∷ workspaces)

-- The first workspace of the name is repointed.
unfoldable pub repoint : List Workspace → String → ChangeId → Option (List Workspace)
repoint [] name change = none
repoint (w ∷ workspaces) name change =
    let rest = repoint workspaces name change in
    if w.name == name
    then some (record w { change = change } ∷ workspaces)
    else keep_workspace w rest

unfoldable pub set_change :
    WorkspaceRegistry → String → ChangeId → Result WorkError WorkspaceRegistry
unfolding repoint
set_change registry name change = do
  workspaces ← ok_or (repoint registry.workspaces name change) (unknown_workspace name)
  ok (record { workspaces = workspaces })

abbrev pub keep_behind :
    Workspace → Option (Workspace × List Workspace) → Option (Workspace × List Workspace)
keep_behind w none = none
keep_behind w (some (removed, workspaces)) = some (removed, w ∷ workspaces)

-- The first workspace of the name, and the others.
unfoldable pub take_workspace : List Workspace → String → Option (Workspace × List Workspace)
take_workspace [] name = none
take_workspace (w ∷ workspaces) name =
    let rest = take_workspace workspaces name in
    if w.name == name then some (w, workspaces) else keep_behind w rest

unfoldable pub remove_workspace :
    WorkspaceRegistry → String → Result WorkError (Workspace × WorkspaceRegistry)
unfolding take_workspace
remove_workspace registry name = do
  (removed, workspaces) ← ok_or (take_workspace registry.workspaces name) (unknown_workspace name)
  ok (removed, record { workspaces = workspaces })

-- What stands under a name: a file, a directory, or a symbolic link or device.
mutual
  pub data FsNode : Type 0 where
    file : Bytes → FsNode
    dir : FsEntries → FsNode
    special : FsNode

  pub data FsEntries : Type 0 where
    end : FsEntries
    entry : Bytes → FsNode → FsEntries → FsEntries

abbrev pub omoplata_dir : Bytes
omoplata_dir = b'.' ∷ b'o' ∷ b'm' ∷ b'o' ∷ b'p' ∷ b'l' ∷ b'a' ∷ b't' ∷ b'a' ∷ []

abbrev pub git_dir : Bytes
git_dir = b'.' ∷ b'g' ∷ b'i' ∷ b't' ∷ []

-- Names that a snapshot passes by: those of the control directories, and those that are no text.
abbrev pub is_skipped : Bytes → Bool
is_skipped name = not (is_utf8 name) || (name == omoplata_dir || name == git_dir)

abbrev pub invalid_entry : Bytes → ObjectError → WorkError
invalid_entry name ObjectError.panicked = WorkError.panicked
invalid_entry name e =
    WorkError.content ("invalid entry name " <> (text_of name <> (": " <> object_message e)))

abbrev pub inserted :
    Repository → Bytes → Result ObjectError Tree → Result WorkError (Repository × Tree)
inserted repo name (ok tree) = ok (repo, tree)
inserted repo name (err e) = err (invalid_entry name e)

module _ (hash : Bytes → Bytes) where
  abbrev pub insert_object :
      Repository × ObjectId → Bytes → EntryKind → Tree → Result WorkError (Repository × Tree)
  insert_object (repo, id) name kind tree = inserted repo name (tree_insert tree name kind id)

  -- The loop of `snapshot_tree` over the entries of a directory; the objects that a failed snapshot
  -- has written are not followed.
  unfoldable mutual
    pub snapshot_entries : Repository → FsEntries → Tree → Result WorkError (Repository × Tree)
    snapshot_entries repo end tree = ok (repo, tree)
    snapshot_entries repo (entry name node entries) tree =
        (if is_skipped name then ok (repo, tree) else snapshot_node repo name node tree) >>= λ next.
        snapshot_entries next.0 entries next.1

    pub snapshot_node : Repository → Bytes → FsNode → Tree → Result WorkError (Repository × Tree)
    snapshot_node repo name (file bytes) tree =
        insert_object (write_blob hash repo bytes) name EntryKind.blob tree
    snapshot_node repo name (dir entries) tree = snapshot_entries repo entries [] >>= λ sub.
        insert_object (write_object hash sub.0 (Object.tree sub.1)) name EntryKind.tree tree
    snapshot_node repo name special tree = ok (repo, tree)

  unfoldable pub snapshot : Repository → FsEntries → Result WorkError (Repository × ObjectId)
  unfolding snapshot_entries
  snapshot repo entries = do
    (repo', tree) ← snapshot_entries repo entries []
    ok (write_object hash repo' (Object.tree tree))

  -- The tip that a directory is compared with: the empty tree where there is none.
  abbrev pub expected_commit : Repository → Option CommitId → Repository × CommitId
  expected_commit repo (some tip) = (repo, tip)
  expected_commit repo none =
      let (repo', id) = write_object hash repo (Object.tree []) in
      (repo', text_of (id_to_string id))

  unfoldable pub is_dirty :
      Repository → FsEntries → Option CommitId → Result WorkError (Repository × Bool × CommitId)
  unfolding snapshot
  is_dirty repo entries expected = do
    (repo', id) ← snapshot repo entries
    let current = text_of (id_to_string id)
    let (repo'', tip) = expected_commit repo' expected
    ok (repo'', not (current == tip), current)

  abbrev pub snapshot_note : Workspace → String
  snapshot_note ws = "auto-snapshot workspace " <> ws.name

  abbrev pub commit_op : Workspace → CommitId → Option CommitId → OpKind
  commit_op ws new_commit parent =
      OpKind.commit ws.name ws.change new_commit parent (some (snapshot_note ws))

  abbrev pub commit_snapshot :
      Repository
      → OpLog
      → Workspace
      → FsEntries
      → Option CommitId
      → Result WorkError (Repository × OpLog × CommitId × Bool)
  unfolding snapshot
  commit_snapshot repo log ws entries parent = do
    (repo', id) ← snapshot repo entries
    let new_commit = text_of (id_to_string id)
    ok (
      repo',
      append log (commit_op ws new_commit parent) (some (snapshot_note ws)),
      new_commit,
      true,
    )

  -- `auto_snapshot`, of a working directory with these entries.
  unfoldable pub auto_snapshot :
      Repository
      → OpLog
      → Workspace
      → FsEntries
      → Result WorkError (Repository × OpLog × CommitId × Bool)
  unfolding is_dirty commit_snapshot
  auto_snapshot repo log ws entries = do
    let current_tip = get (refs_now log) ws.change
    (repo', dirty, current) ← is_dirty repo entries current_tip
    if dirty
        then commit_snapshot repo' log ws entries current_tip
        else ok (repo', log, current, false)
