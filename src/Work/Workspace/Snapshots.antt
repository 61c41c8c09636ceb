-- ===== src/Work/Workspace/Snapshots.antt =====
-- A snapshot is of the content of the directory alone, whatever the store holds.
use omoplata.Prelude.{
  ◌≡◌, ap, sym, ◌∙◌, inl, inr, [], Result, ok, err, ◌>>=◌, bind-ok, ok-inj, Bool-cases,
}
use omoplata.Git.Bytes.{Bytes}
use omoplata.Store.Error.{ObjectError}
use omoplata.Store.Ids.{ObjectId}
use omoplata.Store.Trees.{EntryKind, Tree, tree_insert}
use omoplata.Store.Object.{Object}
use omoplata.Store.Repository.{Repository, write_object}
use omoplata.Store.Repository.Integrity.{written_id}
use omoplata.Work.Error.{WorkError}
use omoplata.Work.Workspace.{
  FsNode, file, dir, special, FsEntries, end, entry, is_skipped, inserted, insert_object,
  snapshot_entries, snapshot_node, snapshot,
}

-- The same tree, in whatever store.
abbrev Gives : Result WorkError (Repository × Tree) → Tree → Type 0
Gives r tree = (repo : Repository) × (r ≡ ok (repo, tree))

inserted-Gives :
    (repo repo2 repo' : Repository) (name : Bytes) (r : Result ObjectError Tree) (tree : Tree)
    → inserted repo name r ≡ ok (repo', tree)
    → Gives (inserted repo2 name r) tree
inserted-Gives repo repo2 repo' name (err e) tree h = absurd (cc (h))
inserted-Gives repo repo2 repo' name (ok t) tree h =
    (repo2, ap (λ (x : Tree). ok (repo2, x)) (ap (λ (p : Repository × Tree). p.1) (ok-inj h)))

module _ (hash : Bytes → Bytes) where
  insert_object-Gives :
      (repo repo2 repo' : Repository) (o : Object) (name : Bytes) (kind : EntryKind)
      (tree tree' : Tree)
      → insert_object hash (write_object hash repo o) name kind tree ≡ ok (repo', tree')
      → Gives (insert_object hash (write_object hash repo2 o) name kind tree) tree'
  insert_object-Gives repo repo2 repo' o name kind tree tree' h =
      let same : (write_object hash repo o).1 ≡ (write_object hash repo2 o).1 =
        written_id hash repo o ∙ sym (written_id hash repo2 o) in
      let moved =
        ap
          (λ (id : ObjectId).
            inserted (write_object hash repo o).0 name (tree_insert tree name kind id))
          (sym same) in
      inserted-Gives (write_object hash repo o).0 (write_object hash repo2 o).0 repo' name
        (tree_insert tree name kind (write_object hash repo2 o).1) tree' (moved ∙ h)

  mutual
    unfolding snapshot_entries

    snapshot_entries-Gives :
        (repo repo2 repo' : Repository) (entries : FsEntries) (tree tree' : Tree)
        → snapshot_entries hash repo entries tree ≡ ok (repo', tree')
        → Gives (snapshot_entries hash repo2 entries tree) tree'
    snapshot_entries-Gives repo repo2 repo' end tree tree' h =
        (repo2, ap (λ (x : Tree). ok (repo2, x)) (ap (λ (p : Repository × Tree). p.1) (ok-inj h)))
    snapshot_entries-Gives repo repo2 repo' (entry name node entries) tree tree' h =
        elim (Bool-cases (is_skipped name)) [
          | inl skipped ↦
              let rest : snapshot_entries hash repo entries tree ≡ ok (repo', tree') =
                rw (skipped, ◌>>=◌) at (h) in
              let (r, ended) = snapshot_entries-Gives repo repo2 repo' entries tree tree' rest in
              (r, rw (skipped, ◌>>=◌) ended)
          | inr kept ↦
              let opened = rw (kept) at (h) in
              let ((r1, t1), first, then_rest) =
                bind-ok (snapshot_node hash repo name node tree) _ opened in
              let (r2, first2) = snapshot_node-Gives repo repo2 r1 name node tree t1 first in
              let (r3, ended) = snapshot_entries-Gives r1 r2 repo' entries t1 tree' then_rest in
              (r3, rw (kept, first2, ◌>>=◌) ended)
        ]

    snapshot_node-Gives :
        (repo repo2 repo' : Repository) (name : Bytes) (node : FsNode) (tree tree' : Tree)
        → snapshot_node hash repo name node tree ≡ ok (repo', tree')
        → Gives (snapshot_node hash repo2 name node tree) tree'
    snapshot_node-Gives repo repo2 repo' name (file bytes) tree tree' h =
        insert_object-Gives repo repo2 repo' (Object.blob bytes) name EntryKind.blob tree tree' h
    snapshot_node-Gives repo repo2 repo' name (dir entries) tree tree' h =
        let ((r1, sub), first, then_rest) = bind-ok (snapshot_entries hash repo entries []) _ h in
        let (r2, first2) = snapshot_entries-Gives repo repo2 r1 entries [] sub first in
        let (r3, ended) =
          insert_object-Gives r1 r2 repo' (Object.tree sub) name EntryKind.tree tree tree'
            then_rest in
        (r3, rw (first2, ◌>>=◌) ended)
    snapshot_node-Gives repo repo2 repo' name special tree tree' h =
        (repo2, ap (λ (x : Tree). ok (repo2, x)) (ap (λ (p : Repository × Tree). p.1) (ok-inj h)))

  -- Where a snapshot of a directory succeeds, it succeeds from every store, with the same id.
  pub snapshot_same :
      (repo repo2 repo' : Repository) (entries : FsEntries) (id : ObjectId)
      → snapshot hash repo entries ≡ ok (repo', id)
      → (repo2' : Repository) × (snapshot hash repo2 entries ≡ ok (repo2', id))
  unfolding snapshot
  snapshot_same repo repo2 repo' entries id h =
      let ((r1, tree), first, last) = bind-ok (snapshot_entries hash repo entries []) _ h in
      let (r2, first2) = snapshot_entries-Gives repo repo2 r1 entries [] tree first in
      let named : (write_object hash r1 (Object.tree tree)).1 ≡ id =
        ap (λ (p : Repository × ObjectId). p.1) (ok-inj last) in
      let same : (write_object hash r2 (Object.tree tree)).1 ≡ id =
        written_id hash r2 (Object.tree tree)
        ∙ sym (written_id hash r1 (Object.tree tree))
        ∙ named in
      (
        (write_object hash r2 (Object.tree tree)).0,
        rw (first2, ◌>>=◌)
            (ap (λ (x : ObjectId). ok ((write_object hash r2 (Object.tree tree)).0, x)) same),
      )
