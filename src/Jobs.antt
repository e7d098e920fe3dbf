-- ===== src/Jobs.antt =====
-- Jobs and their sessions (internal/jobs): bounded measurements and durable bindings.
pub mod Store
