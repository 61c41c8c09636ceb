-- ===== src/Identity.antt =====
-- Changes and submissions of crates/omoplata-identity.
pub mod Change
pub mod Submission
