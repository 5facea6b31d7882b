-- ===== src/Model.antt =====
-- internal/model: the published resilience model.
pub mod Types
pub mod Validate
pub mod Normalize
pub mod Integrity
