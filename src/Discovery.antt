-- ===== src/Discovery.antt =====
-- internal/discovery: what is inferred from spans, what overlays add, and the result.
pub mod Types
pub mod Infer
pub mod Attributes
pub mod Accumulate
pub mod Index
pub mod Summary
pub mod Scan
pub mod Clone
pub mod Merge
pub mod Positions
pub mod Overlays
pub mod Rebuild
