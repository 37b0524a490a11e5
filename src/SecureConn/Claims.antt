-- ===== src/SecureConn/Claims.antt =====
-- internal/secureconn/session.go: what a session says of the device behind it.
use or3_intern.Base.{ℕ, String, List}

-- the times are milliseconds since 1970, where 0 means that there is none
pub record SessionClaims : Type 0 where
  pub host_id : String
  pub device_id : String
  pub enrollment_epoch : ℕ
  pub role : String
  pub capabilities : List String
  pub trust_level : String
  pub session_id : String
  pub relay_route_id : String
  pub account_id : String
  pub step_up_at : ℕ
  pub issued_at : ℕ
  pub expires_at : ℕ
