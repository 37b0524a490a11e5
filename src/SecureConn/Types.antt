-- ===== src/SecureConn/Types.antt =====
-- internal/secureconn/types.go: the error codes and the frame of the secure connection protocol.
use or3_intern.Base.{ℕ, ◌*◌, String, Bool, List}
use or3_intern.Base.Int.{ℤ, pos}

-- the constants `Error…`; the texts shown to the user are left out
pub data Code : Type 0 where
  pairing_expired pairing_consumed pairing_rejected relay_unavailable handshake_failed : Code
  host_identity_changed device_revoked session_expired step_up_required capability_denied : Code
  approval_required protocol_unsupported low_assurance_storage replay_detected : Code
  malformed_payload no_plaintext_relay_violation : Code

-- an `error` of the package: a `SecureConnectionError`, or a plain one from elsewhere
pub data Error : Type 0 where
  secure : (code : Code) (retryable : Bool) → Error
  other : String → Error

pub record SecureFrame : Type 0 where
  pub version : ℤ  -- int
  pub kind : String
  pub session_id : String
  pub sequence : ℕ  -- uint64
  pub correlation_id : String
  pub sent_at : ℤ  -- int64, milliseconds
  pub body : List ℕ

abbrev pub protocol_version : ℤ
protocol_version = pos 1

abbrev pub max_body_bytes : ℕ
max_body_bytes = 64 * 1024
