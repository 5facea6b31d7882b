-- ===== src/Reconciliation/Lifecycle.antt =====
-- internal/reconciliation/engine.go: the life of one entity. `observe_entity` is a sighting in the
-- current window, `advance_lifecycle` the end of a window. `gapThresholds` and
-- `sourceStrengthFromProvenance` are in types.go.
pub mod Observe
pub mod Advance
pub mod Thresholds
pub mod Sighting
pub mod Retirement
pub mod Bounds
