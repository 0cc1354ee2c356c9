-- ===== src/Persistence/Sqlite.antt =====
-- libs/persistence/src/sqlite_job_repository.cpp and sqlite_worker_repository.cpp: the jobs and
-- the workers in a SQLite database.
pub mod Values
pub mod JobRow
pub mod Session
pub mod Transactions
pub mod Reads
pub mod JobTable
pub mod WorkerRow
pub mod WorkerReads
pub mod WorkerTable
pub mod SchemaText
pub mod Schema
