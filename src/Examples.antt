-- ===== src/Examples.antt =====
-- Tests of the definitions and instances of the theorems, at concrete inputs.
mod Values
mod Domain
mod Scheduler
mod Persistence
mod Reachable
mod Dispatch
mod Coordinator
mod Histories
mod Sqlite
mod Service
mod Apps
mod Schema
mod Workers
