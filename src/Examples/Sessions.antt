-- ===== src/Examples/Sessions.antt =====
-- Sessions of the secure connection at concrete inputs.
use or3_intern.Base.{keep, ℕ, ◌≡◌, ◌≢◌, refl, none, some, List, [], ◌∷◌, inr, Distinct, String}
use mathlib.Core.Path.{subst}
use mathlib.Core.Option.{some-injective}
use or3_intern.Base.Text.{str_ne}
use or3_intern.Base.Int.{pos, sub_int64}
use or3_intern.Base.Text.{trim_space}
use or3_intern.SecureConn.Types.{SecureFrame}
use or3_intern.SecureConn.Authorization.{validate_step_up_update}
use or3_intern.SecureConn.Claims.{SessionClaims}
use or3_intern.SecureConn.Roles.{normalize_capabilities}
use or3_intern.SecureConn.Frame.{Codec, decode_secure_frame, validate_secure_frame, accept_in}
use or3_intern.SecureConn.SessionStore.{
  Session, Device, Store, active, get_session, find_session, find_device, update_step_up_row,
  touch_session, update_session, expire_sessions, purge_sessions,
}
use or3_intern.SecureConn.Sessions.{
  Manager, update_step_up, load_active_session_claims, validate_frame, is_over, verify_claims,
  checked_step_up, claims_of, count_frame,
}
use or3_intern.SecureConn.Sessions.Requests.{
  Request, send, step_up, expire, purge, passed, added, step, all_passed,
}
use or3_intern.SecureConn.Sessions.Once.{in_range, all_passed-Distinct}
use or3_intern.SecureConn.Sessions.StepUp.{update_step_up-load}

abbrev session : Session
session = record {
  session_id = "s";
  device_id = "phone";
  host_id = "host";
  relay_route_id = "";
  enrollment_epoch = 1;
  status = active;
  created_at = 1000;
  last_seen_at = 1000;
  expires_at = 90000;
  step_up_at = 0;
  last_sequence_in = pos 0;
  last_sequence_out = pos 0;
  claim_mac = "mac";
}

abbrev phone : Device
phone = record {
  device_id = "phone";
  host_id = "host";
  enrollment_epoch = 1;
  status = active;
  role = "operator";
  capabilities = [];
  trust_level = "";
  account_id = "";
  revoked_at = 0;
}

abbrev store : Store
store = record { sessions = session ∷ []; devices = phone ∷ [] }

abbrev manager : Manager
manager = record { host_id = "host"; sign_claims = λ c. some "mac" }

-- A frame is its number.
abbrev numbered : ℕ → SecureFrame
numbered n = record {
  version = pos 1;
  kind = "request";
  session_id = "s";
  sequence = n;
  correlation_id = "c";
  sent_at = pos 2000;
  body = [];
}

abbrev codec : Codec ℕ
codec = record { encode = λ f. some f.sequence; decode = λ n. some (numbered n) }

abbrev requests : List (Request ℕ)
requests =
    send "s" 5 2000 none
    ∷ send "s" 5 2001 none
    ∷ step_up manager "s" (some 2000000000) 2002000000
    ∷ send " s " 3 2003 none
    ∷ expire 3000
    ∷ send "s" 7 3001 none
    ∷ purge 3000
    ∷ send "s" 9 90000 none
    ∷ []

all_passed_test : all_passed codec requests store ≡ ("s", 5) ∷ ("s", 7) ∷ []
unfolding all_passed step added passed validate_frame get_session find_session trim_space is_over
    decode_secure_frame validate_secure_frame sub_int64 accept_in count_frame touch_session
    update_session expire_sessions purge_sessions update_step_up load_active_session_claims
    find_device verify_claims checked_step_up validate_step_up_update update_step_up_row claims_of
    normalize_capabilities
all_passed_test = refl

abbrev updated : SessionClaims
updated = record {
  host_id = "host";
  device_id = "phone";
  enrollment_epoch = 1;
  role = "operator";
  capabilities = [];
  trust_level = "";
  session_id = "s";
  relay_route_id = "";
  account_id = "";
  step_up_at = 5000;
  issued_at = 1000;
  expires_at = 90000;
}

update_step_up_test :
    (update_step_up manager "s" (some 5000000000) 5000000000 store).1 ≡ inr updated
unfolding update_step_up load_active_session_claims get_session find_session trim_space is_over
    find_device verify_claims checked_step_up validate_step_up_update update_step_up_row claims_of
    normalize_capabilities
update_step_up_test = refl

all_passed-Distinct_example : Distinct (keep in_range (all_passed codec requests store))
all_passed-Distinct_example = all_passed-Distinct codec requests store

-- Two calls that read the row before either has updated it let the same frame through.
abbrev raced : Store
raced = (validate_frame codec "s" 5 2000 none store store).0

race_test :
    ((validate_frame codec "s" 5 2000 none store store).2 ≡ inr (numbered 5))
    × ((validate_frame codec "s" 5 2000 none store raced).2 ≡ inr (numbered 5))
unfolding validate_frame get_session find_session trim_space is_over decode_secure_frame
    validate_secure_frame sub_int64 accept_in count_frame touch_session update_session
race_test = (refl, refl)

mac_plain :
    (mac : String) → manager.sign_claims updated ≡ some mac → (trim_space mac ≡ mac) × (mac ≢ "")
unfolding trim_space
mac_plain mac e =
    subst (λ k. (trim_space k ≡ k) × (k ≢ "")) (some-injective "mac" mac e)
      (refl, str_ne "mac" "" refl)

update_step_up-load_example :
    load_active_session_claims manager "s" 6000
      (update_step_up manager "s" (some 5000000000) 5000000000 store).0
    ≡ inr updated
update_step_up-load_example =
    update_step_up-load manager "s" (some 5000000000) 5000000000 6000 store updated mac_plain
      update_step_up_test refl
