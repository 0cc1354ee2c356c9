-- ===== src/WorkerApp.antt =====
-- apps/worker/: the worker process.
pub mod Process
pub mod Session
pub mod Workloads
