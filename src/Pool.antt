-- ===== src/Pool.antt =====
-- The outbound pool (internal/outbound/pool).
pub mod Member
pub mod Lifetime
pub mod Dial
pub mod Eligible
pub mod Sticky
pub mod Selection
pub mod Pick
pub mod Release
