-- ===== src/Work/Error.antt =====
-- crates/omoplata-work/src/error.rs: the errors. A path, and an error of the standard library or of
-- the store that one carries, are texts. `panicked` is no value of the source's type: it stands for the
-- panic of a call into the store.
use omoplata.Prelude.{ℕ, String, List}
use omoplata.Identity.Change.{IdentityError}

pub data WorkError : Type 0 where
  nothing_to_undo : WorkError
  unknown_ref : String → WorkError
  parse : String → WorkError
  io : (path source : String) → WorkError
  decode : String → WorkError
  store : String → WorkError
  identity : IdentityError → WorkError
  content : String → WorkError
  workspace_exists : String → WorkError
  unknown_workspace : String → WorkError
  unknown_change : String → WorkError
  invalid_stack_index : ℕ → WorkError
  submission_not_approved : String → WorkError
  queue_exists : String → WorkError
  unknown_queue : String → WorkError
  remote_exists : String → WorkError
  unknown_remote : String → WorkError
  queue_carried_refused : (queue : String) (count : ℕ) → WorkError
  queue_validation_failed : (queue reason : String) → WorkError
  batch_overlap : (a b : String) (paths : List String) → WorkError
  dirty_working_copy : (workspace current expected : String) → WorkError
  panicked : WorkError
