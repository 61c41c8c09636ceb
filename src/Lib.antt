-- ===== src/Lib.antt =====
-- A verification library for Omoplata, a version control system whose merges are decided by a
-- small algebra of patches.
--
-- The parts of the program and the files that model them:
--
-- * The patch algebra, crates/omoplata-algebra/src. A document is a list of lines (Algebra/Doc);
--   a patch is a list of hunks at positions of the base (Algebra/Patch: `diff`, `lcs_matches`,
--   `apply`); two patches commute where no two hunks touch (Algebra/Commute: `hunks_conflict`,
--   `commute`, `combine`); otherwise a three-way merge emits conflict values (Algebra/Merge:
--   `merge3`). The kernel admits a merge with a witness or gives conflicts, and checks the
--   proposals of drivers (Algebra/Kernel: `admit`, `verify_witness`, `certify`; Algebra/Validation:
--   `dynamic_validate`). A change is replayed on a new base and carries its conflicts along
--   (Algebra/Rebase: `rebase`, `rebase_merge`, `rebase_stack`, `resolve_all`).
-- * The object store, crates/omoplata-store/src. Blobs and trees have canonical bytes, whose hash is
--   their id (Store/Ids: `ObjectId`; Store/Trees: `tree_insert`, `tree_get`; Store/Object:
--   `serialize`, `deserialize`, `id_with`), and a repository keeps them in files named by their ids
--   (Store/Repository: `write_object`, `read_object`). The hash is a parameter; the files are a map,
--   and a failure of the file system is not modelled.
-- * Change identity, crates/omoplata-identity/src. A change keeps its id over its revisions, and
--   supersession edges lead from a commit to the one that replaces it (Identity/Change:
--   `ChangeGraph` with `add_change`, `add_revision`, `supersede`, `reaches`, `tip`, `set_phase`).
--   A submission names changes and carries an approval (Identity/Submission).
-- * The working model, crates/omoplata-work/src. The operation log is only appended to, and the
--   refs are a fold over its active operations (Work/OpLog: `append`, `undo`, `is_active`,
--   `fold_refs`). Stacks of changes have their surgery (Work/Stack). The landing queues advance the
--   phase of the changes of a submission in the change graph and append the refs to the operation
--   log (Work/Queue: `land_submission`, `land_submission_in_queue`; Work/Queue/Batch:
--   `land_batch_in_queue`; Work/Queue/Names: the refs, notes and messages). Revset expressions name
--   sets of commits (Work/Revset: `eval`, with `MapContext` as a context; Work/Revset/Parser:
--   `parse`, `query`). The engine of automatic rebases loads contents from the object store, replays
--   them with the algebra, and records the move in the log and in the change graph (Work/Autorebase:
--   `load_doc`, `auto_rebase`, `auto_rebase_stack`, `history`). A workspace snapshots its working
--   directory into the store and commits it to the log (Work/Workspace: `snapshot`, `is_dirty`,
--   `auto_snapshot`, `add_workspace`), and the objects that a root reaches are copied from one store
--   to another (Work/Remote: `copy_closure`, `add_remote`). A `String` there is read from and
--   written as UTF-8 (Store/Text).
-- * The git formats, crates/omoplata-git/src. Packet lines are framed and read back (Git/PktLine:
--   `write_pkt_line`, `read_pkt`, `parse_ref_line`); objects are encoded and decoded (Git/Object, with Git/Trees,
--   Git/Headers and Git/Oid); a packfile has variable-length numbers (Git/Pack/Sizes), deltas
--   (Git/Pack/Delta: `apply_delta`), an index (Git/Pack/Index) and entries that are resolved along chains of deltas
--   (Git/Pack/Entries: `resolve`; Git/Pack/Reader: `read_pack_detailed`). Every object of a repository
--   passes a gate (Git/Gate: `roundtrip_ok`, `verify_repo`). Inflating and SHA-1 are
--   parameters. Git/Bytes and Git/Text have what they use of Rust's text functions.
--
-- How the model stands to the code. A method with `&mut self` is a function that returns the new
-- state; a `Result` is `Result E A` with the error first; a landing, which can fail after it has
-- changed something, returns its result and the world that it leaves. Hash maps and tree maps are
-- association lists whose lookup sees the last write, sets are lists, ids are their texts. Numbers
-- are natural numbers; the positions of a document and the numbers of a log are bounded by its
-- length, so no arithmetic of the code wraps, and the tables of the longest common subsequence,
-- which hold `u32` in the code, keep the wrap written out, as do the shifts of the sizes in a pack.
-- Signed shifts are integers. The texts and bytes of the git formats are lists of numbers.
--
-- Fuel. The merge loop runs on the length of the base and two rounds more (Algebra/Merge/Total).
-- The walks along supersession edges run on one or two rounds more than there are edges
-- (Identity/Change/Walks). The recursion of `is_active` runs on the length of the log and one
-- more; Work/OpLog/Activity compares two amounts of fuel. The loop over the instructions of a delta
-- runs on the bytes of the delta (Git/Pack/Delta/Bounds), the one over the entries of a tree on the
-- bytes of the tree (Git/Trees/RoundTrip), and the parser of revsets on four for each token and four
-- more (Work/Revset/Parser/Ends). The copy of a closure has as much fuel as it is given; enough
-- exists where the trees of the source are ranked (Work/Remote/Ends). The recursion along a chain of deltas has the bound
-- of the code, 200.
--
-- The helpers that the parts share are under Prelude: numbers and tests, lists and slices,
-- Boolean equality as an instance, results, integers, and maps. Tests holds runs at concrete
-- inputs.
--
-- Not modelled: the file formats, locks and summaries of the operation
-- log and the registries, the extraction of definitions
-- (crates/omoplata-identity/src/definition.rs and `rust_support` of the queues, which rest on an
-- outside parser), the materialization of a tree in a working directory, the lock of the store, the drivers, the walk over a pack
-- without an index, the rest of the git bridge (loose files, refs, import, export and
-- fetch: mostly I/O), the embeddings and the command line.
pub mod Prelude
pub mod Algebra
pub mod Git
pub mod Store
pub mod Identity
pub mod Work
pub mod Tests
