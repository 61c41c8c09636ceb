-- ===== src/Algebra.antt =====
-- The line-oriented patch algebra of crates/omoplata-algebra, one module for each source file.
pub mod Doc
pub mod Patch
pub mod Commute
pub mod Merge
pub mod Kernel
pub mod Validation
pub mod Rebase
