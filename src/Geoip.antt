-- ===== src/Geoip.antt =====
-- Regions (internal/geoip).
pub mod Router
pub mod Lifecycle
