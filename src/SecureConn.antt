-- ===== src/SecureConn.antt =====
-- internal/secureconn
pub mod Types
pub mod Replay
pub mod Frame
pub mod Roles
pub mod Claims
pub mod Authorization
pub mod SessionStore
pub mod Sessions
