-- ===== src/Jobs.antt =====
-- internal/jobs/registry.go: the registry of background jobs, their events and their subscribers.
pub mod Events
pub mod Registry
pub mod Publish
pub mod Equations
pub mod Invariant
pub mod Upkeep
pub mod Traffic
pub mod Steps
pub mod Cleanup
pub mod Heard
pub mod Life
