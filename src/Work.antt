-- ===== src/Work.antt =====
-- The operation log, the stacks and the landing queues of crates/omoplata-work.
pub mod Error
pub mod Autorebase
pub mod OpLog
pub mod Queue
pub mod Stack
pub mod Revset
pub mod Remote
pub mod Workspace
