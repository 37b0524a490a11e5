-- ===== src/Log.antt =====
-- internal/log: the buffer of log entries.
pub mod Entries
pub mod Buffer
pub mod Refine
pub mod Redacted
