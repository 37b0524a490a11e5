-- ===== src/Cron.antt =====
-- The scheduler of internal/cron/cron.go: jobs and their checks, the service, its store.
pub mod Types
pub mod Schedule
pub mod Clocks
pub mod Service
pub mod Edits
pub mod Operations
pub mod Runs
pub mod Sound
pub mod Arming
pub mod JobList
pub mod Enabled
pub mod Keeps
pub mod KeepsRuns
pub mod ArmKeeps
pub mod KeepsStart
pub mod Machine
pub mod Outcomes
pub mod Apart
pub mod Running
pub mod Live
pub mod Liveness
pub mod Sqlite
pub mod Saved
pub mod Stored
pub mod NextRun
