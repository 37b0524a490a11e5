-- ===== src/Examples/Approval.antt =====
-- The approvals' theorems at concrete inputs.
use Prim.Native.String.{◌++◌ as append}
use or3_intern.Base.{
  inl, ℕ, ◌≡◌, refl, String, str_eq, true, false, none, some, inr, List, [], ◌∷◌, Distinct, Any,
  arith, if◌then◌else◌,
}
use or3_intern.Base.Text.{str_ne, spaceless, all_chars, trim_space}
use or3_intern.Base.Table.{find, find_where, update, affected}
use or3_intern.Approval.Types.{
  unique_constraint, Status, Codec, Broker, Claims, Scope, Matcher, exec, Subject, ask, Request,
  pending, approved, Allowlist, Store, empty_store, Decision, no_moderator,
}
use or3_intern.Approval.Store.{
  is_pending, create_or_get_pending, find_pending, is_duplicate, same_subject, resolve_request,
  resolve_row, pending_row, allowlist_artifact, issue_or_fail, issue_token, approve_row,
  approve_with_artifacts, consume_token, unused_token,
}
use or3_intern.Approval.Tokens.{
  signature_of, sign_claims, cut_dot, host_id, parse_payload, parse_parts, parse_approval_token,
  refuse_claims, refuse_token, consume_claims, verify_claims, verify_approval_token,
}
use or3_intern.Approval.Tokens.Signed.{IsFaithful, parse_approval_token-sign_claims}
use or3_intern.Approval.Requests.{
  approve_request, sign_issued, allowlist_from_request, resolution_kind,
}
use or3_intern.Approval.Store.Pending.{Asked, create_or_get_pending-Asked}
use or3_intern.Approval.Requests.Settled.{Settled, approve_request-Settled}
use or3_intern.Approval.Evaluate.{
  Clock, evaluate_with_mode, canonical_subject_hash, check_existing_token, permitted,
}
use or3_intern.Approval.Evaluate.Granted.{Granted, evaluate_with_mode-Granted}
use or3_intern.Approval.Matchers.{admits, is_empty_exec, as_exec, fields_match_exec, same_argv}
use or3_intern.Approval.Allowlist.{
  allowlist_match_keys, matcher_keys, no_keys, candidates, is_candidate, passes, search, scan_page,
  applies, scope_matches, matcher_matches, matches_exec, allowlist_matches,
}
use or3_intern.Approval.Allowlist.Search.{Allows, allowlist_matches_lem, allowlist_matches-Allows}
use or3_intern.Approval.Machine.{Run, start, request, approve, consume, log_of}
use or3_intern.Approval.Machine.Once.{Run-Distinct}
use or3_intern.Approval.Machine.Verify.{Accepted, verify-approved}

abbrev claims : Claims
claims = record {
  token_id = 1;
  request_id = 1;
  subject_hash = "h";
  execution_host = "host";
  issued_at = 2;
  expires_at = 62;
}

abbrev exec_rule : Matcher
exec_rule = exec (record {
  executable_path = "/bin/ls";
  path_glob = "";
  argv = [];
  working_dir = "";
  working_dir_pref = "";
  script_hash = "";
})

-- encodings that know the values of the examples
abbrev pub codec : Codec
codec = record {
  subject_json = λ s. "s";
  read_exec_subject = λ t. none;
  read_skill_subject = λ t. none;
  read_runner_subject = λ t. none;
  scope_json = λ s. "scope";
  read_scope = λ t. some (record { host_id = ""; tool = ""; profile = ""; agent = "" });
  matcher_json = λ m. "rule";
  read_exec_matcher = λ t. some (record {
    executable_path = "/bin/ls";
    path_glob = "";
    argv = [];
    working_dir = "";
    working_dir_pref = "";
    script_hash = "";
  });
  read_skill_matcher = λ t. none;
  read_runner_matcher = λ t. none;
  claims_json = λ c. "claims";
  read_claims = λ t. if str_eq t "claims" then some claims else none;
  sha256_hex = λ t. "h";
  hmac = λ key t. append key t;
  hex_encode = λ t. t;
  hex_decode = λ t. some t;
  base64_encode = λ t. t;
  base64_decode = λ t. some t;
  path_match = λ p t. some (str_eq p t);
}

abbrev pub broker : Broker
broker = record {
  has_db = true;
  sign_key = "key";
  host_id = "host";
  config_host_id = "";
  exec_mode = ask;
  message_send_mode = ask;
  pending_ttl_seconds = 60;
  approval_token_ttl_seconds = 60;
}

abbrev asked : Request
asked = record {
  kind = "exec";
  subject_hash = "h";
  subject_json = "s";
  requester_agent_id = "";
  requester_session_id = "";
  requester_context_json = "{}";
  execution_host_id = "host";
  status = pending;
  policy_mode = ask;
  requested_at = 1000;
  expires_at = 61000;
  resolved_at = 0;
  resolver_actor_id = "";
  resolution_kind = "";
  resolution_note = "";
  moderator = no_moderator;
  moderator_reviewed_at = 0;
}

abbrev asked_store : Store
asked_store = (create_or_get_pending asked 1000 empty_store).0

abbrev approved_store : Store
approved_store = (approve_request codec broker 2000 2000 1 "op" false "" asked_store).0

approved_run : Run codec [] approved_store
unfolding is_pending
approved_run = approve (request start asked 1000 refl) broker 2000 2000 1 "op" false ""

abbrev used_store : Store
used_store = (consume_token 1 3000 approved_store).0

-- the token is taken once, and the second try leaves the log as it is
abbrev used_log : List ℕ
used_log =
    log_of 1 (consume_token 1 4000 used_store) (log_of 1 (consume_token 1 3000 approved_store) [])

used_log_test : used_log ≡ 1 ∷ []
unfolding log_of consume_token unused_token find find_where update affected create_or_get_pending
    find_pending is_duplicate same_subject is_pending approve_request sign_issued
    allowlist_from_request resolution_kind approve_with_artifacts approve_row resolve_request
    resolve_row pending_row allowlist_artifact issue_or_fail issue_token
used_log_test = refl

Run-Distinct_example : Distinct used_log
Run-Distinct_example =
    Run-Distinct (consume (consume approved_run 1 3000 (omega arith)) 1 4000 (omega arith))

abbrev token : String
token = "claims.keyclaims"

token_verifies :
    (verify_approval_token codec broker 3000 3000 token "h" "host" approved_store).1 ≡ inr claims
unfolding verify_approval_token parse_approval_token cut_dot trim_space parse_payload parse_parts
    verify_claims refuse_claims refuse_token consume_claims consume_token unused_token find
    find_where update affected create_or_get_pending find_pending is_duplicate same_subject
    is_pending approve_request sign_issued allowlist_from_request resolution_kind
    approve_with_artifacts approve_row resolve_request resolve_row pending_row allowlist_artifact
    issue_or_fail issue_token
token_verifies = refl

verify-approved_example :
    (a : Accepted codec broker 3000 3000 token "h" "host" approved_store claims) × (r : Request)
    × (find a.row.approval_request_id approved_store.requests ≡ some r)
    × (r.status ≡ approved)
    × (r.subject_hash ≡ trim_space "h")
verify-approved_example =
    verify-approved broker 3000 3000 token "h" "host" claims approved_run token_verifies

abbrev pub clock : Clock
clock = record { token_at = 3000; consume_at = 3000; match_at = 3000; create_at = 3000 }

abbrev listing : Subject
listing = exec (record {
  execution_host_id = "host";
  sandbox_id = "";
  executable_path = "/bin/ls";
  argv = "-l" ∷ [];
  working_dir = "/";
  env_binding_hash = "";
  script_hash = "";
  requesting_agent = "";
  session_id = "";
  tool_name = "exec";
  access_profile = "";
})

abbrev scope : Scope
scope = record { host_id = "host"; tool = "exec"; profile = ""; agent = "" }

abbrev permit : Decision
permit = record (permitted "h" "approved_token" 1) { moderator = no_moderator }

evaluate_with_mode-Granted_example :
    Granted codec broker clock no_moderator listing token ask scope exec_rule approved_store
unfolding evaluate_with_mode canonical_subject_hash check_existing_token permitted host_id
    verify_approval_token parse_approval_token cut_dot trim_space parse_payload parse_parts
    verify_claims refuse_claims refuse_token consume_claims consume_token unused_token find
    find_where update affected create_or_get_pending find_pending is_duplicate same_subject
    is_pending approve_request sign_issued allowlist_from_request resolution_kind
    approve_with_artifacts approve_row resolve_request resolve_row pending_row allowlist_artifact
    issue_or_fail issue_token
evaluate_with_mode-Granted_example =
    evaluate_with_mode-Granted codec broker clock "{}" no_moderator listing token ask scope
      exec_rule approved_store permit refl refl

-- the rule in the store, above one that was disabled
abbrev rule : Allowlist
rule = record {
  domain = "exec";
  scope_json = "scope";
  matcher_json = "rule";
  created_by = "op";
  created_at = 1;
  expires_at = 0;
  disabled_at = 0;
  keys = allowlist_match_keys codec "exec" scope exec_rule;
}

abbrev listed_store : Store
listed_store = record empty_store {
  allowlists = (2, rule) ∷ (1, record rule { disabled_at = 2 }) ∷ [];
  next_allowlist = 3;
}

allowlist_matches_lem_example :
    allowlist_matches codec 3000 "exec" scope exec_rule listed_store
    ≡ scan_page codec "exec" 3000 scope exec_rule (
        candidates "exec" 3000
          (allowlist_match_keys codec "exec" scope exec_rule)
          listed_store.allowlists)
allowlist_matches_lem_example = allowlist_matches_lem codec "exec" 3000 scope exec_rule listed_store

allowlist_matches-Allows_example :
    Any
      (λ (p : ℕ × Allowlist). Allows codec "exec" 3000 scope exec_rule p.1)
      listed_store.allowlists
unfolding allowlist_matches allowlist_match_keys matcher_keys no_keys candidates is_candidate passes
    search scan_page applies scope_matches admits matcher_matches matches_exec is_empty_exec as_exec
    fields_match_exec same_argv trim_space
allowlist_matches-Allows_example =
    allowlist_matches-Allows codec "exec" 3000 scope exec_rule listed_store refl

claims-IsFaithful : IsFaithful codec broker claims
unfolding spaceless all_chars signature_of
claims-IsFaithful = record {
  claims_back = refl;
  base64_back = refl;
  base64_spaceless = refl;
  base64_dotless = refl;
  some_payload = str_ne "claims" "" refl;
  hex_back = refl;
  hex_spaceless = refl;
  some_signature = str_ne "keyclaims" "" refl;
}

parse_approval_token-sign_claims_example :
    parse_approval_token codec broker (sign_claims codec broker claims) ≡ inr claims
parse_approval_token-sign_claims_example =
    parse_approval_token-sign_claims codec broker claims claims-IsFaithful

abbrev refused : Request
refused = record asked { status = Status.denied }

abbrev refused_store : Store
refused_store = record empty_store { requests = (1, refused) ∷ []; next_request = 2 }

approve_request-Settled_example :
    Settled codec broker 3000 3000 1 "op" "" false refused refused_store
unfolding find is_pending
approve_request-Settled_example =
    approve_request-Settled codec broker 3000 3000 1 "op" "" false refused refused_store refl refl
      refl refl

-- the request of 1000 has expired by 90000, and nobody resolved it
create_or_get_pending-Asked_example :
    Asked asked 90000 asked_store (create_or_get_pending asked 90000 asked_store)
unfolding is_pending
create_or_get_pending-Asked_example = create_or_get_pending-Asked asked 90000 asked_store refl

stale_test : create_or_get_pending asked 90000 asked_store ≡ (asked_store, inl unique_constraint)
unfolding create_or_get_pending find_pending is_duplicate same_subject is_pending find_where
stale_test = refl
