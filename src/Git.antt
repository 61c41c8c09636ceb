-- ===== src/Git.antt =====
-- The git formats of crates/omoplata-git.
pub mod Error
pub mod Bytes
pub mod PktLine
pub mod Pack
pub mod Text
pub mod Oid
pub mod Headers
pub mod Trees
pub mod Object
pub mod Gate
