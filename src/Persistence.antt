-- ===== src/Persistence.antt =====
-- libs/persistence: the jobs and workers that the coordinator stores, in memory and in SQLite.
pub mod JobRepository
pub mod WorkerRepository
pub mod Sqlite
