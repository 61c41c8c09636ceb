-- ===== src/Store.antt =====
-- crates/omoplata-store: the object store, `mod` by `mod`.
pub mod Error
pub mod Text
pub mod Ids
pub mod Trees
pub mod Object
pub mod Repository
