-- ===== src/Examples.antt =====
-- Concrete runs, and the theorems at concrete inputs.
mod SecureConn
mod Sessions
mod Jobs
mod Log
mod Autopilot
mod Bus
mod Cron
mod Pairing
mod Approval
