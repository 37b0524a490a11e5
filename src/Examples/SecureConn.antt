-- ===== src/Examples/SecureConn.antt =====
-- The secure connection's theorems at concrete inputs.
use or3_intern.Base.{
  ℕ, ◌+◌, ◌≤◌, ◌≡◌, refl, sym, ◌≢◌, ◌↔◌, true, false, none, some, List, [], ◌∷◌, elem, length,
  Distinct, arith,
}
use or3_intern.Base.Int.{pos, sub_int64}
use or3_intern.Base.Text.{contains, member, trim_space, to_lower, to_upper}
use or3_intern.SecureConn.Frame.{encoded, accept_in}
use or3_intern.SecureConn.Authorization.{
  deny, undecided, role_forbids, authorize_role, requires_step_up, requires_web_step_up,
}
use or3_intern.SecureConn.Roles.{normalize_capabilities}
use or3_intern.SecureConn.Types.{SecureFrame, step_up_required}
use or3_intern.SecureConn.Replay.{ReplayWindow, new_replay_window, accept, insert, accept_all}
use or3_intern.SecureConn.Replay.Once.{accept_all-Distinct, accept-exact}
use or3_intern.SecureConn.Replay.Bounds.{length-seen-accept_all}
use or3_intern.SecureConn.Frame.{
  Codec, ok, validate_secure_frame, encode_secure_frame, decode_secure_frame, with_defaults,
}
use or3_intern.SecureConn.Frame.Checks.{
  Passed, validate_secure_frame-Passed, decode-encode_secure_frame,
}
use or3_intern.SecureConn.Roles.{has_capability, has_capability_lem, granted, fold, normalize_role}
use or3_intern.SecureConn.Claims.{SessionClaims}
use or3_intern.SecureConn.Authorization.{
  authorize_action, classify_action, has_recent_step_up, step_up_ttl_for_trust,
}
use or3_intern.SecureConn.Authorization.Safety.{
  Safe, authorize_action-Safe, authorize_action_denied,
}
use or3_intern.SecureConn.Authorization.Classify.{
  Reads, Avoids, sensitive_paths, sensitive_tools, viewer-Reads,
}

abbrev offered : List ℕ
offered = 5 ∷ 3 ∷ 5 ∷ 9 ∷ 3 ∷ []

replay_run :
    accept_all (new_replay_window (pos 4), []) offered
    ≡ (record { max_seen = 9; seen = 9 ∷ 5 ∷ []; capacity = 4 }, 9 ∷ 3 ∷ 5 ∷ [])
unfolding accept_all accept insert new_replay_window
replay_run = refl

accept_all-Distinct_example : Distinct (accept_all (new_replay_window (pos 4), []) offered).1
accept_all-Distinct_example = accept_all-Distinct (pos 4) offered (omega arith)

accept-exact_example :
    ((accept (accept_all (new_replay_window (pos 4), []) offered).0 8).1 ≡ none)
    ↔ (elem 8 (accept_all (new_replay_window (pos 4), []) offered).1 ≡ false)
unfolding accept_all accept insert new_replay_window
accept-exact_example =
    accept-exact (pos 4) offered 8 (omega arith) (omega arith) (omega arith) (omega arith)

length-seen-accept_all_example :
    length (accept_all (new_replay_window (pos 4), []) offered).0.seen
    ≤ (new_replay_window (pos 4)).capacity + 1
length-seen-accept_all_example = length-seen-accept_all (pos 4) offered (omega arith)

abbrev frame : SecureFrame
frame = record {
  version = pos 1;
  kind = "control";
  session_id = "s1";
  sequence = 7;
  correlation_id = "c1";
  sent_at = pos 1700000000000;
  body = 1 ∷ 2 ∷ [];
}

abbrev window : ReplayWindow
window = record { max_seen = 5; seen = 5 ∷ []; capacity = 512 }

validate_secure_frame-Passed_example : Passed frame "s1" window 1700000000500
unfolding validate_secure_frame accept trim_space sub_int64 accept_in
validate_secure_frame-Passed_example =
    validate_secure_frame-Passed frame "s1" window 1700000000500 (omega arith) (omega arith) refl

abbrev plain : Codec SecureFrame
plain = record { encode = λ f. some f; decode = λ f. some f }

decode-encode_secure_frame_example :
    decode_secure_frame plain frame "s1" none (pos 1700000000000)
    ≡ (none, ok (with_defaults frame (pos 1700000000000)))
unfolding encode_secure_frame validate_secure_frame with_defaults encoded trim_space sub_int64
    accept_in
decode-encode_secure_frame_example =
    decode-encode_secure_frame plain (λ f b h. sym h) frame (pos 1700000000000) frame refl

abbrev claims : SessionClaims
claims = record {
  host_id = "h";
  device_id = "d";
  enrollment_epoch = 1;
  role = " Operator";
  capabilities = "Chat" ∷ "terminal" ∷ [];
  trust_level = "native-hardware";
  session_id = "s1";
  relay_route_id = "";
  account_id = "";
  step_up_at = 1000;
  issued_at = 900;
  expires_at = 90000;
}

has_capability_lem_example :
    has_capability ("Chat" ∷ " chat" ∷ "files" ∷ []) "CHAT"
    ≡ granted ("Chat" ∷ " chat" ∷ "files" ∷ []) (fold "CHAT")
unfolding fold trim_space to_lower
has_capability_lem_example = has_capability_lem ("Chat" ∷ " chat" ∷ "files" ∷ []) "CHAT" refl

-- two seconds after 1970, so one second after the step-up
abbrev moment : ℕ
moment = 2000000000

authorize_action-Safe_example :
    Safe claims (classify_action "POST" "/api/terminal/sessions" "") moment
unfolding authorize_action classify_action authorize_role has_capability normalize_capabilities
    normalize_role requires_step_up requires_web_step_up has_recent_step_up step_up_ttl_for_trust
    fold trim_space to_lower to_upper contains member
authorize_action-Safe_example =
    authorize_action-Safe claims (classify_action "POST" "/api/terminal/sessions" "") moment refl

-- the step-up has run out
abbrev late : ℕ
late = 400000000000

authorize_action_denied_example :
    let d =
      authorize_action
        (record claims { expires_at = 0 })
        (classify_action "POST" "/terminal" "")
        late in
    (d.code ≢ none)
    × (d.audit_payload.outcome ≡ some false)
    × (d.audit_payload.code ≡ d.code)
    × ((d.requires_step ≡ true) ↔ (d.code ≡ some step_up_required))
unfolding authorize_action classify_action authorize_role has_capability normalize_capabilities
    normalize_role requires_step_up requires_web_step_up has_recent_step_up step_up_ttl_for_trust
    fold trim_space to_lower to_upper contains member deny undecided
authorize_action_denied_example =
    authorize_action_denied (record claims { expires_at = 0 })
      (classify_action "POST" "/terminal" "") late refl

viewer-Reads_example :
    Reads (to_upper (trim_space "get"))
    × Avoids (to_lower (trim_space "/api/chat")) sensitive_paths
    × Avoids (to_lower (trim_space "")) sensitive_tools
unfolding authorize_action classify_action authorize_role has_capability normalize_capabilities
    normalize_role requires_step_up requires_web_step_up has_recent_step_up step_up_ttl_for_trust
    fold trim_space to_lower to_upper contains member role_forbids
viewer-Reads_example =
    viewer-Reads (record claims { role = "viewer" }) moment "get" "/api/chat" "" refl refl
