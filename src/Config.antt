-- ===== src/Config.antt =====
-- Configuration (internal/config).
pub mod Sessions
pub mod Jobs
pub mod Files
