-- ===== src/Store/Error.antt =====
-- crates/omoplata-store/src: the errors of the object model and of the store. A text is its bytes,
-- and a path or a message is a string.
use omoplata.Prelude.{String}
use omoplata.Git.Bytes.{Bytes}

-- Rust's `panicked` is no value of the source's type: it stands for the panic of a slice that cuts a
-- character in two, which ends the call wherever it happens.
pub data ObjectError : Type 0 where
  unknown_hash_alg : Bytes → ObjectError
  malformed_id : Bytes → ObjectError
  invalid_name : Bytes → ObjectError
  corrupt : String → ObjectError
  panicked : ObjectError

-- What the store reports. The failures of the file system are not modelled, so `io` is never given.
pub data StoreError : Type 0 where
  already_initialized : String → StoreError
  not_initialized : String → StoreError
  object_not_found : Bytes → StoreError
  integrity : Bytes → StoreError
  object : ObjectError → StoreError
  io : (path source : String) → StoreError
