-- ===== src/Git/Pack.antt =====
-- crates/omoplata-git/src/pack.rs: packfiles. `Sizes` reads the variable-length numbers, `Delta`
-- applies a delta.
pub mod Sizes
pub mod Delta
pub mod Index
pub mod Entries
pub mod Reader
