-- ===== src/SecureConn/SessionStore.antt =====
-- internal/db/secure_connection_store.go: the records of sessions and devices, and the statements on sessions.
-- Failures of SQLite itself are left out.
use or3_intern.Base.{
  ℕ, ◌==◌, String, str_eq, Bool, true, false, ◌&&◌, ◌||◌, Option, none, some, List, [], ◌∷◌, keep,
  map, ltb, leb, if◌then◌else◌,
}
use or3_intern.Base.Int.{ℤ, ltb_ℤ}
use or3_intern.Base.Text.{trim_space}

pub data SessionStatus : Type 0 where
  active expired revoked : SessionStatus

abbrev pub is_active : SessionStatus → Bool
is_active active = true
is_active _ = false

-- `SecureConnectionSessionRecord`. `claim_mac` is the text under that key of the metadata, "" where there
-- is none; the rest of the metadata is left out.
pub record Session : Type 0 where
  pub session_id : String
  pub device_id : String
  pub host_id : String
  pub relay_route_id : String
  pub enrollment_epoch : ℕ
  pub status : SessionStatus
  pub created_at : ℕ
  pub last_seen_at : ℕ
  pub expires_at : ℕ
  pub step_up_at : ℕ
  pub last_sequence_in : ℤ
  pub last_sequence_out : ℤ
  pub claim_mac : String

-- `SecureConnectionDeviceRecord`, with the columns that sessions read
pub record Device : Type 0 where
  pub device_id : String
  pub host_id : String
  pub enrollment_epoch : ℕ
  pub status : SessionStatus
  pub role : String
  pub capabilities : List String
  pub trust_level : String
  pub account_id : String
  pub revoked_at : ℕ

pub record Store : Type 0 where
  pub sessions : List Session
  pub devices : List Device

-- `WHERE session_id=?`, a primary key
unfoldable pub find_session : String → List Session → Option Session
find_session id [] = none
find_session id (s ∷ sessions) = if str_eq s.session_id id then some s else find_session id sessions

unfoldable pub find_device : String → List Device → Option Device
find_device id [] = none
find_device id (d ∷ devices) = if str_eq d.device_id id then some d else find_device id devices

-- `GetSecureConnectionSession`
unfoldable pub get_session : String → Store → Option Session
get_session id st = find_session (trim_space id) st.sessions

-- `UPDATE secure_connection_sessions SET ... WHERE session_id=? AND ...`
unfoldable pub update_session :
    String → (Session → Bool) → (Session → Session) → List Session → List Session
update_session id test f [] = []
update_session id test f (s ∷ sessions) =
    (if str_eq s.session_id id && test s then f s else s) ∷ update_session id test f sessions

abbrev pub max_ℤ : ℤ → ℤ → ℤ
max_ℤ a b = if ltb_ℤ a b then b else a

unfoldable pub touched : ℕ → ℤ → ℤ → Session → Session
touched now in_ out s = record s {
  last_seen_at = now;
  last_sequence_in = max_ℤ s.last_sequence_in in_;
  last_sequence_out = max_ℤ s.last_sequence_out out;
}

-- `TouchSecureConnectionSession`
unfoldable pub touch_session : String → ℕ → ℤ → ℤ → Store → Store
unfolding touched
touch_session id now in_ out st = record st {
  sessions = update_session (trim_space id) (λ s. true) (touched now in_ out) st.sessions;
}

-- the condition of the statements on a step-up, which compare the expiry with the time of the step-up
abbrev pub outlives : ℕ → Session → Bool
outlives step_up_at s = is_active s.status && (s.expires_at == 0 || ltb step_up_at s.expires_at)

-- whether an update affects a row: the id is the primary key
unfoldable pub affects : String → (Session → Bool) → List Session → Bool
affects id test sessions = elim (find_session id sessions) [ none ↦ false | some s ↦ test s ]

-- `UpdateSecureConnectionSessionStepUpAndClaimMAC`; none where no row was affected
unfoldable pub update_step_up_row : String → ℕ → String → Store → Option Store
unfolding affects
update_step_up_row id step_up_at mac st =
    if affects (trim_space id) (outlives step_up_at) st.sessions
    then some (record st {
      sessions =
          update_session (trim_space id) (outlives step_up_at)
            (λ (s : Session). record s { step_up_at = step_up_at; claim_mac = trim_space mac })
            st.sessions;
    })
    else none

-- `UPDATE` and `DELETE` statements on all sessions
unfoldable pub expired_at : ℕ → Session → Session
expired_at now s =
    if is_active s.status && ltb 0 s.expires_at && leb s.expires_at now
    then record s { status = expired; last_seen_at = now }
    else s

-- `ExpireSecureConnectionSessions`, of `ExpireStaleSessions`
unfoldable pub expire_sessions : ℕ → Store → Store
unfolding expired_at
expire_sessions now st = record st { sessions = map (expired_at now) st.sessions }

unfoldable pub revoked_with : String → ℕ → Session → Session
revoked_with device now s =
    if str_eq s.device_id device && is_active s.status
    then record s { status = revoked; last_seen_at = now }
    else s

-- `RevokeSecureConnectionSessionsByDevice`
unfoldable pub revoke_sessions_by_device : String → ℕ → Store → Store
unfolding revoked_with
revoke_sessions_by_device device now st = record st {
  sessions = map (revoked_with (trim_space device) now) st.sessions;
}

-- `PurgeExpiredSecureConnectionSessions`
unfoldable pub purge_sessions : ℕ → Store → Store
purge_sessions older_than st = record st {
  sessions =
      keep (λ s. is_active s.status || s.last_seen_at == 0 || ltb older_than s.last_seen_at)
        st.sessions;
}
