-- ===== src/Runtime.antt =====
-- internal/runtime: the engine that collects spans and publishes the topology of each window.
pub mod Types
pub mod Window
pub mod Admission
pub mod Shutdown
pub mod Session
pub mod Envelope
pub mod Flush
pub mod Publish
pub mod Lifetime
pub mod Adapter
