-- ===== src/Approval.antt =====
-- internal/approval and internal/db/approval_store.go: approvals.
pub mod Types
pub mod Store
pub mod Tokens
pub mod Matchers
pub mod Allowlist
pub mod Evaluate
pub mod Requests
pub mod Autopilot
pub mod Machine
