-- ===== src/SecureConn/Sessions/Requests.antt =====
-- Requests to the sessions of internal/secureconn/session.go, one after the other.
use or3_intern.Base.{ℕ, inl, inr, ◌⊎◌, String, Option, none, some, List, [], ◌∷◌}
use or3_intern.Base.Text.{trim_space}
use or3_intern.SecureConn.Types.{SecureFrame}
use or3_intern.SecureConn.Replay.{ReplayWindow}
use or3_intern.SecureConn.Frame.{Codec}
use or3_intern.SecureConn.SessionStore.{
  Store, expire_sessions, revoke_sessions_by_device, purge_sessions,
}
use or3_intern.SecureConn.Sessions.{SessionError, Manager, validate_frame, update_step_up}

-- what is asked of the store
pub data Request (Bytes : Type 0) : Type 0 where
  send : (id : String) (raw : Bytes) (now : ℕ) (window : Option ReplayWindow) → Request Bytes
  step_up : (m : Manager) (id : String) (step_up_at : Option ℕ) (now : ℕ) → Request Bytes
  expire : (now : ℕ) → Request Bytes
  revoke : (device : String) (now : ℕ) → Request Bytes
  purge : (older_than : ℕ) → Request Bytes

-- a session's id and a number that passed in it
abbrev pub Passed : Type 0
Passed = String × ℕ

unfoldable pub passed : String → SessionError ⊎ SecureFrame → Option Passed
passed id (inl e) = none
passed id (inr frame) = some (trim_space id, frame.sequence)

unfoldable pub added : Option Passed → List Passed → List Passed
added none later = later
added (some n) later = n ∷ later

module _ {Bytes : Type 0} (codec : Codec Bytes) where
  unfoldable pub step : Request Bytes → Store → Store × Option Passed
  unfolding passed
  step (send id raw now window) st =
      let (st', window', result) = validate_frame codec id raw now window st st in
      (st', passed id result)
  step (step_up m id step_up_at now) st = ((update_step_up m id step_up_at now st).0, none)
  step (expire now) st = (expire_sessions now st, none)
  step (revoke device now) st = (revoke_sessions_by_device device now st, none)
  step (purge older_than) st = (purge_sessions older_than st, none)

  -- the frames that pass in a run, in order
  unfoldable pub all_passed : List (Request Bytes) → Store → List Passed
  unfolding step added
  all_passed [] st = []
  all_passed (r ∷ requests) st =
      let (st', result) = step r st in added result (all_passed requests st')
