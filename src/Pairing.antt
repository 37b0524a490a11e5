-- ===== src/Pairing.antt =====
-- Pairing of devices and their tokens: internal/approval/pairing.go and internal/approval/devices.go.
pub mod Types
pub mod Tables
pub mod Devices
pub mod Requests
pub mod Exchange
pub mod Machine
pub mod Claims
pub mod Once
pub mod Rows
pub mod Tokens
pub mod Rotation
pub mod Exchanged
