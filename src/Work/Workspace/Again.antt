-- ===== src/Work/Workspace/Again.antt =====
-- A working copy that was snapshotted is clean until it changes.
use mathlib.Core.Path.{subst}
use omoplata.Prelude.{
  ◌≡◌, refl, ap, sym, ◌∙◌, inl, inr, ◌≤◌, String, Bool, true, false, not, Option, none, some, [],
  Assoc, get, get-insert_self, ◌==◌, string_eq, eq_self, ok, ◌>>=◌, bind-ok, ok-inj, Bool-cases,
}
use omoplata.Git.Bytes.{Bytes}
use omoplata.Identity.Change.{CommitId}
use omoplata.Store.Ids.{ObjectId, id_to_string}
use omoplata.Store.Object.{Object}
use omoplata.Store.Repository.{Repository}
use omoplata.Store.Repository.Integrity.{written_id}
use omoplata.Work.Autorebase.{text_of}
use omoplata.Work.OpLog.{OpLog, append, refs_now, next_seq, u64_max, apply_op}
use omoplata.Work.OpLog.Activity.{IsLog}
use omoplata.Work.OpLog.Undo.{refs_now-append}
use omoplata.Work.Workspace.{
  Workspace, FsEntries, snapshot, expected_commit, is_dirty, snapshot_note, commit_op,
  commit_snapshot, auto_snapshot,
}
use omoplata.Work.Workspace.Snapshots.{snapshot_same}

module _ (hash : Bytes → Bytes) where
  -- The tip that a working copy is compared with does not depend on the store.
  expected-same :
      (repo repo2 : Repository) (tip : Option CommitId)
      → (expected_commit hash repo tip).1 ≡ (expected_commit hash repo2 tip).1
  expected-same repo repo2 (some tip) = refl
  expected-same repo repo2 none =
      ap (λ (id : ObjectId). text_of (id_to_string id))
        (written_id hash repo (Object.tree []) ∙ sym (written_id hash repo2 (Object.tree [])))

  is_dirty-snapshot :
      (repo repo' : Repository) (entries : FsEntries) (tip : Option CommitId) (id : ObjectId)
      → snapshot hash repo entries ≡ ok (repo', id)
      → is_dirty hash repo entries tip
        ≡ ok (
          (expected_commit hash repo' tip).0,
          not (text_of (id_to_string id) == (expected_commit hash repo' tip).1),
          text_of (id_to_string id),
        )
  unfolding is_dirty
  is_dirty-snapshot repo repo' entries tip id h = rw (h, ◌>>=◌) refl

  auto_snapshot-clean :
      (repo repo' : Repository) (log : OpLog) (ws : Workspace) (entries : FsEntries) (id : ObjectId)
      → snapshot hash repo entries ≡ ok (repo', id)
      → (text_of (id_to_string id) == (expected_commit hash repo' (get (refs_now log) ws.change)).1)
        ≡ true
      → auto_snapshot hash repo log ws entries
        ≡ ok (
          (expected_commit hash repo' (get (refs_now log) ws.change)).0,
          log,
          text_of (id_to_string id),
          false,
        )
  unfolding auto_snapshot
  auto_snapshot-clean repo repo' log ws entries id h same =
      rw (is_dirty-snapshot repo repo' entries (get (refs_now log) ws.change) id h, ◌>>=◌, same)
        refl

  auto_snapshot-dirty :
      (repo repo' repo2 : Repository) (log : OpLog) (ws : Workspace) (entries : FsEntries)
      (id : ObjectId)
      → snapshot hash repo entries ≡ ok (repo', id)
      → (text_of (id_to_string id) == (expected_commit hash repo' (get (refs_now log) ws.change)).1)
        ≡ false
      → snapshot hash (expected_commit hash repo' (get (refs_now log) ws.change)).0 entries
        ≡ ok (repo2, id)
      → auto_snapshot hash repo log ws entries
        ≡ ok (
          repo2,
          append log
              (commit_op hash ws (text_of (id_to_string id)) (get (refs_now log) ws.change))
              (some (snapshot_note hash ws)),
          text_of (id_to_string id),
          true,
        )
  unfolding auto_snapshot commit_snapshot
  auto_snapshot-dirty repo repo' repo2 log ws entries id h other again =
      rw
        (
          is_dirty-snapshot repo repo' entries (get (refs_now log) ws.change) id h,
          ◌>>=◌,
          other,
          again,
          ◌>>=◌,
        )
        refl

  -- The directory could be snapshotted.
  auto_snapshot-snapshot :
      (repo : Repository) (log : OpLog) (ws : Workspace) (entries : FsEntries)
      (out : Repository × OpLog × CommitId × Bool)
      → auto_snapshot hash repo log ws entries ≡ ok out
      → (repo' : Repository) × (id : ObjectId) × (snapshot hash repo entries ≡ ok (repo', id))
  unfolding auto_snapshot is_dirty
  auto_snapshot-snapshot repo log ws entries out h =
      let (dirt, first, rest) =
        bind-ok (is_dirty hash repo entries (get (refs_now log) ws.change)) _ h in
      let ((repo', id), taken, more) = bind-ok (snapshot hash repo entries) _ first in
      (repo', id, taken)

  -- The ref of the change holds the new commit.
  committed :
      (log : OpLog) (ws : Workspace) (commit : CommitId) (parent : Option CommitId)
      → IsLog 0 log.ops
      → next_seq log ≤ u64_max
      → get
          (refs_now (append log (commit_op hash ws commit parent) (some (snapshot_note hash ws))))
          ws.change
        ≡ some commit
  unfolding apply_op
  committed log ws commit parent is_log short =
      ap (λ (refs : Assoc String CommitId). get refs ws.change)
        (refs_now-append log (commit_op hash ws commit parent) (some (snapshot_note hash ws)) is_log
          (λ t. refl) short)
      ∙ get-insert_self (refs_now log) ws.change commit

  -- What a snapshot leaves: another one finds the directory clean.
  abbrev Settled : Workspace → FsEntries → Repository × OpLog × CommitId × Bool → Type 0
  Settled ws entries (repo, log, commit, made) =
      ((repo' : Repository) × (auto_snapshot hash repo log ws entries
          ≡ ok (repo', log, commit, false)))
      × ((made ≡ true) → get (refs_now log) ws.change ≡ some commit)

  clean-Settled :
      (repo r0 : Repository) (log : OpLog) (ws : Workspace) (entries : FsEntries) (id : ObjectId)
      → snapshot hash repo entries ≡ ok (r0, id)
      → (text_of (id_to_string id) == (expected_commit hash r0 (get (refs_now log) ws.change)).1)
        ≡ true
      → Settled ws entries (
        (expected_commit hash r0 (get (refs_now log) ws.change)).0,
        log,
        text_of (id_to_string id),
        false,
      )
  clean-Settled repo r0 log ws entries id taken clean =
      let tip = get (refs_now log) ws.change in
      let left = (expected_commit hash r0 tip).0 in
      let (r2, again) = snapshot_same hash repo left r0 entries id taken in
      let same : (text_of (id_to_string id) == (expected_commit hash r2 tip).1) ≡ true =
        ap (λ (t : CommitId). text_of (id_to_string id) == t) (expected-same r2 r0 tip) ∙ clean in
      (
        ((expected_commit hash r2 tip).0, auto_snapshot-clean left r2 log ws entries id again same),
        λ no. absurd (cc (no)),
      )

  dirty-Settled :
      (repo r0 r1 : Repository) (log : OpLog) (ws : Workspace) (entries : FsEntries) (id : ObjectId)
      (parent : Option CommitId)
      → IsLog 0 log.ops
      → next_seq log ≤ u64_max
      → snapshot hash repo entries ≡ ok (r0, id)
      → Settled ws entries (
        r1,
        append log
            (commit_op hash ws (text_of (id_to_string id)) parent)
            (some (snapshot_note hash ws)),
        text_of (id_to_string id),
        true,
      )
  dirty-Settled repo r0 r1 log ws entries id parent is_log short taken =
      let current = text_of (id_to_string id) in
      let longer = append log (commit_op hash ws current parent) (some (snapshot_note hash ws)) in
      let tip = committed log ws current parent is_log short in
      let (r2, again) = snapshot_same hash repo r1 r0 entries id taken in
      let same : (current == (expected_commit hash r2 (get (refs_now longer) ws.change)).1) ≡ true =
        ap (λ (t : Option CommitId). current == (expected_commit hash r2 t).1) tip
        ∙ eq_self current in
      (
        (
          (expected_commit hash r2 (get (refs_now longer) ws.change)).0,
          auto_snapshot-clean r1 r2 longer ws entries id again same,
        ),
        λ yes. tip,
      )

  -- With a well-formed log whose next number fits a word: after an automatic snapshot that succeeds, a
  -- second one of the same directory succeeds, finds it clean, gives the same commit and leaves the
  -- log as it is; and where the first one made a commit, the ref of the change holds it.
  pub auto_snapshot_again :
      (repo repo' : Repository) (log log' : OpLog) (ws : Workspace) (entries : FsEntries)
      (commit : CommitId) (made : Bool)
      → IsLog 0 log.ops
      → next_seq log ≤ u64_max
      → auto_snapshot hash repo log ws entries ≡ ok (repo', log', commit, made)
      → ((repo'' : Repository) × (auto_snapshot hash repo' log' ws entries
            ≡ ok (repo'', log', commit, false)))
        × ((made ≡ true) → get (refs_now log') ws.change ≡ some commit)
  auto_snapshot_again repo repo' log log' ws entries commit made is_log short h =
      let tip = get (refs_now log) ws.change in
      let (r0, id, taken) = auto_snapshot-snapshot repo log ws entries _ h in
      elim (Bool-cases (text_of (id_to_string id) == (expected_commit hash r0 tip).1)) [
        | inl clean ↦
            subst (Settled ws entries)
              (ok-inj (sym (auto_snapshot-clean repo r0 log ws entries id taken clean) ∙ h))
              (clean-Settled repo r0 log ws entries id taken clean)
        | inr dirty ↦
            let (r1, again) =
              snapshot_same hash repo (expected_commit hash r0 tip).0 r0 entries id taken in
            subst (Settled ws entries)
              (ok-inj
                (sym (auto_snapshot-dirty repo r0 r1 log ws entries id taken dirty again) ∙ h))
              (dirty-Settled repo r0 r1 log ws entries id tip is_log short taken)
      ]
