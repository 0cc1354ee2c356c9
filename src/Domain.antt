-- ===== src/Domain.antt =====
-- libs/domain: the data types of the scheduler.
pub mod Error
pub mod Double
pub mod Id
pub mod Workload
pub mod Resource
pub mod JobState
pub mod Job
pub mod Worker
pub mod Eligibility
pub mod WorkerRecord
