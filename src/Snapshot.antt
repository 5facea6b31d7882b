-- ===== src/Snapshot.antt =====
-- internal/snapshot: the snapshot envelope and its records.
pub mod Types
pub mod Normalize
pub mod Validate
pub mod Diff
