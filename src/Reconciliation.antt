-- ===== src/Reconciliation.antt =====
-- internal/reconciliation: the retained view of the topology across windows.
pub mod Types
pub mod Config
pub mod Numbers
pub mod Lifecycle
pub mod Health
pub mod Index
pub mod Selection
pub mod Projection
pub mod Compaction
pub mod Window
pub mod Process
pub mod State
