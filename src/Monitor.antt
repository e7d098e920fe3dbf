-- ===== src/Monitor.antt =====
-- The management server's view of the nodes (internal/monitor).
pub mod Entry
pub mod Backoff
pub mod LogBuffer
pub mod Picks
pub mod Budget
pub mod Adaptive
pub mod Probes
pub mod Query
