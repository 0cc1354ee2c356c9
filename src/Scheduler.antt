-- ===== src/Scheduler.antt =====
-- libs/scheduler: which job runs next, and where.
pub mod JobQueue
pub mod WorkerFilter
pub mod Policy
pub mod Planner
