-- ===== src/Jobs/Store.antt =====
-- internal/jobs: the store of session bindings (store.go, failover.go, activity.go).
pub mod Config
pub mod Lease
pub mod State
pub mod Bindings
pub mod Activity
pub mod Failover
pub mod Commit
mod Accounts
pub mod Choice
pub mod Limits
pub mod Fencing
pub mod Sweeps
pub mod Keys
pub mod Moves
pub mod Commits
pub mod Reserving
pub mod Targets
