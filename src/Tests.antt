-- ===== src/Tests.antt =====
-- Runs of the definitions on small inputs, and the theorems at inputs that meet their hypotheses.
mod Samples
mod Model
mod Entities
mod Windows
mod Spans
mod Envelopes
mod Publication
mod Configuration
mod Discovery
mod Overlays
mod Files
