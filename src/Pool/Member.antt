-- ===== src/Pool/Member.antt =====
-- internal/outbound/pool/shared_state.go: the health state of one node, which every pool that
-- holds the node shares. Instants are numbers, 0 is Go's zero time.
pub mod State
pub mod Failure
pub mod Expiry
pub mod Success
pub mod Watch
pub mod Retire
pub mod Run
pub mod Invariant
mod FailureInvariant
pub mod Histories
pub mod Answers
pub mod Holds
pub mod Strikes
pub mod Handover
pub mod Notices
pub mod Watchers
