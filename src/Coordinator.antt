-- ===== src/Coordinator.antt =====
-- libs/coordinator/src/in_memory_coordinator.cpp: jobs and workers brought together.
pub mod State
pub mod Loops
pub mod Submit
pub mod Heartbeat
pub mod Expiry
pub mod Dispatch
pub mod Finish
pub mod Reachable
pub mod Lifecycle
pub mod Recover
pub mod Queries
pub mod Invariant
