-- ===== src/Overlay.antt =====
-- internal/overlay: what an operator adds to the services, edges and endpoints of a discovery.
pub mod Types
pub mod Normalize
