-- ===== src/Examples.antt =====
-- The theorems at concrete inputs.
mod Data
mod Nodes
mod Routing
mod Sessions
mod Sweeps
mod Failovers
mod Probing
mod Pools
mod Access
mod Jobs
mod Results
mod Queries
mod Saving
mod Picking
