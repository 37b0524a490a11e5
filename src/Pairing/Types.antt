-- ===== src/Pairing/Types.antt =====
-- The records of pairing requests, paired devices and sign-in sessions (internal/db/approval_store.go and
-- internal/db/auth_store.go). Times are milliseconds since 1970; 0 means that there is none. Hashes are
-- texts.
use or3_intern.Base.{ℕ, Bool, Option, String, List}
use or3_intern.Approval.Types.{Mode}

pub data PairingStatus : Type 0 where
  pending approved denied expired exchanged : PairingStatus

pub data DeviceStatus : Type 0 where
  active revoked : DeviceStatus

-- the JSON text of a map
abbrev pub Metadata : Type 0
Metadata = String

-- `PairingRequestRecord`, without its id
pub record PairingRequest : Type 0 where
  pub device_id : String
  pub role : String
  pub display_name : String
  pub origin : String
  pub code_hash : Option String
  pub requested_at : ℕ
  pub expires_at : ℕ
  pub status : PairingStatus
  pub approver_id : String
  pub approved_at : ℕ
  pub denied_at : ℕ
  pub metadata : Metadata

-- `PairedDeviceRecord`, without its id, which nothing depends on
pub record PairedDevice : Type 0 where
  pub device_id : String
  pub role : String
  pub display_name : String
  pub token_hash : String
  pub status : DeviceStatus
  pub created_at : ℕ
  pub last_seen_at : ℕ
  pub revoked_at : ℕ
  pub metadata : Metadata

-- `AuthSessionRecord`, with the columns that the statements on devices touch
pub record AuthSession : Type 0 where
  pub id : String
  pub device_id : String
  pub revoked_at : ℕ
  pub revoked_reason : String

-- The tables. A row's place in `devices` stands for its place under the unique index on `device_id`.
pub record Tables : Type 0 where
  pub requests : List (ℕ × PairingRequest)
  pub next_request : ℕ
  pub devices : List PairedDevice
  pub sessions : List AuthSession

-- `PairingRequestInput`
pub record PairingRequestInput : Type 0 where
  pub role : String
  pub display_name : String
  pub origin : String
  pub metadata : Metadata
  pub device_id : String

-- What the broker's functions on pairing read of it: `Config.Pairing.Mode`, `PairingCodeTTLSeconds`,
-- and crypto/sha256 and crypto/hmac with its key.
pub record PairingBroker : Type 0 where
  pub mode : Mode
  pub code_ttl_seconds : ℕ
  pub has_sign_key : Bool
  pub sha256 : String → String
  pub hmac : String → String

-- Why an operation fails.
pub data PairingError : Type 0 where
  invalid_role denied_by_policy no_rows not_pending request_expired code_required : PairingError
  no_device_with_code several_devices_with_code not_found not_approved : PairingError
  device_id_required token_too_short token_not_found token_revoked role_not_allowed : PairingError
