-- ===== src/Service.antt =====
-- apps/coordinator/main.cpp and proto/: the service, and its liveness monitor.
pub mod Messages
pub mod Stored
pub mod Handlers
pub mod Built
pub mod Chains
pub mod Registered
pub mod Calls
pub mod History
pub mod Started
pub mod Submitted
pub mod Accepted
pub mod Finished
pub mod Acquired
pub mod Handover
