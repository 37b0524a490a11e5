-- ===== src/SecureConn/Sessions.antt =====
-- internal/secureconn/session.go: what is asked of the sessions of the store.
pub mod Requests
pub mod Frames
pub mod Counters
pub mod Once
pub mod Loading
pub mod StepUp
use or3_intern.Base.{
  ℕ, ◌+◌, ◌*◌, ◌/◌, ◌==◌, String, str_eq, Bool, true, false, not, ◌&&◌, ◌||◌, Option, none, some,
  List, [], ◌∷◌, keep, map, length, ◌⊎◌, inl, inr, ltb, leb, if◌then◌else◌,
}
use or3_intern.Base.Int.{ℤ, pos, negsuc, ltb_ℤ, int64, pos_part}
use or3_intern.Base.Text.{trim_space}
use or3_intern.SecureConn.Types.{
  Code, device_revoked, session_expired, replay_detected, Error, secure, SecureFrame,
}
use or3_intern.SecureConn.Roles.{normalize_capabilities}
use or3_intern.SecureConn.Claims.{SessionClaims}
use or3_intern.SecureConn.Authorization.{validate_step_up_update}
use or3_intern.SecureConn.Replay.{ReplayWindow}
use or3_intern.SecureConn.Frame.{Codec, Outcome, ok, fail, decode_secure_frame, accept_in}
use or3_intern.SecureConn.SessionStore.{
  SessionStatus, is_active, Session, Device, Store, find_session, find_device, get_session,
  update_session, max_ℤ, touched, touch_session, outlives, affects, update_step_up_row, expired_at,
  expire_sessions, revoked_with, revoke_sessions_by_device, purge_sessions, active, expired,
  revoked,
}

pub data SessionError : Type 0 where
  no_rows host_mismatch epoch_stale claim_unsigned session_not_active : SessionError
  connection : Error → SessionError

expired_session : SessionError
expired_session = connection (secure session_expired true)

-- the session is not active, or its time is over
unfoldable pub is_over : ℕ → Session → Bool
is_over now s = not (is_active s.status) || (ltb 0 s.expires_at && leb s.expires_at now)

-- `Manager`: the host's id, and `signClaims`, none where the host has no usable key
pub record Manager : Type 0 where
  pub host_id : String
  pub sign_claims : SessionClaims → Option String

unfoldable pub claims_of : Session → Device → SessionClaims
claims_of s d = record {
  host_id = s.host_id;
  device_id = s.device_id;
  enrollment_epoch = s.enrollment_epoch;
  role = d.role;
  capabilities = normalize_capabilities d.capabilities;
  trust_level = d.trust_level;
  session_id = s.session_id;
  relay_route_id = s.relay_route_id;
  account_id = d.account_id;
  step_up_at = s.step_up_at;
  issued_at = s.created_at;
  expires_at = s.expires_at;
}

-- `verifyClaims`
unfoldable pub verify_claims : Manager → SessionClaims → String → Bool
verify_claims m claims mac = elim (m.sign_claims claims) [
  | none ↦ false
  | some expected ↦ str_eq expected mac
]

-- the checks of the claims of a session and its device
load_claims : Manager → Session → Device → SessionError ⊎ SessionClaims
unfolding claims_of expired_session
load_claims m s d =
    if not (is_active d.status)
    then inl (connection (secure device_revoked false))
    else if not (str_eq d.host_id s.host_id) || not (str_eq s.host_id m.host_id)
    then inl host_mismatch
    else if not (d.enrollment_epoch == s.enrollment_epoch)
    then inl epoch_stale
    else if str_eq s.claim_mac "" || not (verify_claims m (claims_of s d) s.claim_mac)
    then inl expired_session
    else inr (claims_of s d)

load_from : Manager → ℕ → Store → Option Session → SessionError ⊎ SessionClaims
unfolding load_claims expired_session
load_from m now st none = inl no_rows
load_from m now st (some s) =
    if is_over now s
    then inl expired_session
    else elim (find_device (trim_space s.device_id) st.devices) [
      | none ↦ inl no_rows
      | some d ↦ load_claims m s d
    ]

-- `LoadActiveSessionClaims`
unfoldable pub load_active_session_claims :
    Manager → String → ℕ → Store → SessionError ⊎ SessionClaims
unfolding load_from
load_active_session_claims m id now st = load_from m now st (get_session id st)

-- the claims or the error of `ValidateStepUpUpdate`
step_up_result : SessionClaims × Option Error → SessionError ⊎ SessionClaims
step_up_result (updated, none) = inr updated
step_up_result (updated, some e) = inl (connection e)

unfoldable pub checked_step_up : SessionClaims → Option ℕ → ℕ → SessionError ⊎ SessionClaims
unfolding step_up_result
checked_step_up claims step_up_at now =
    step_up_result (validate_step_up_update claims step_up_at now)

-- from the updated claims on
store_step_up :
    Manager → String → Store → SessionError ⊎ SessionClaims → Store × (SessionError ⊎ SessionClaims)
store_step_up m id st (inl e) = (st, inl e)
store_step_up m id st (inr claims) = elim (m.sign_claims claims) [
  | none ↦ (st, inl claim_unsigned)
  | some mac ↦ elim (update_step_up_row id claims.step_up_at mac st) [
    | none ↦ (st, inl session_not_active)
    | some st' ↦ (st', inr claims)
  ]
]

-- `UpdateStepUp`. Its times are nanoseconds since 1970, the time of the step-up none where it is the zero
-- time.
unfoldable pub update_step_up :
    Manager → String → Option ℕ → ℕ → Store → Store × (SessionError ⊎ SessionClaims)
unfolding store_step_up
update_step_up m id step_up_at now st = elim (load_active_session_claims m id (now / 1000000) st) [
  | inl e ↦ (st, inl e)
  | inr claims ↦ store_step_up m id st (checked_step_up claims step_up_at now)
]

-- The counter has passed this number.
abbrev pub is_replayed : Session → ℕ → Bool
is_replayed s sequence =
    ltb_ℤ (pos 0) s.last_sequence_in && leb sequence (pos_part s.last_sequence_in)

-- A frame that was decoded, from the counter of the session on.
unfoldable pub count_frame :
    Session
    → ℕ
    → Option ReplayWindow
    → SecureFrame
    → Store
    → Store × Option ReplayWindow × (SessionError ⊎ SecureFrame)
count_frame s now window frame st =
    let (window', verdict) = accept_in window frame.sequence in
    if is_replayed s frame.sequence
    then (st, window, inl (connection (secure replay_detected true)))
    else elim verdict [
      | some e ↦ (st, window', inl (connection e))
      | none ↦ (
        touch_session s.session_id now (int64 frame.sequence) s.last_sequence_out st,
        window',
        inr frame,
      )
    ]

module _ {Bytes : Type 0} (codec : Codec Bytes) where
  validate_found :
      Option Session
      → Bytes
      → ℕ
      → Option ReplayWindow
      → Store
      → Store × Option ReplayWindow × (SessionError ⊎ SecureFrame)
  unfolding expired_session
  validate_found none raw now window st = (st, window, inl no_rows)
  validate_found (some s) raw now window st =
      if is_over now s
      then (st, window, inl expired_session)
      else elim ((decode_secure_frame codec raw s.session_id none (pos now)).1) [
        | fail e ↦ (st, window, inl (connection e))
        | ok frame ↦ count_frame s now window frame st
      ]

  -- `ValidateFrame`, with the window after it. It reads the row in one statement and updates it in
  -- another, between which others may run: the stores at the two.
  unfoldable pub validate_frame :
      String
      → Bytes
      → ℕ
      → Option ReplayWindow
      → Store
      → Store
      → Store × Option ReplayWindow × (SessionError ⊎ SecureFrame)
  unfolding validate_found
  validate_frame id raw now window read later =
      validate_found (get_session id read) raw now window later
