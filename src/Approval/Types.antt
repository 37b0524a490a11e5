-- ===== src/Approval/Types.antt =====
-- internal/approval/types.go and the records of internal/db/approval_store.go. Times are milliseconds
-- since 1970 but in token claims, which have seconds; 0 means that there is none. Byte strings are
-- texts.
use or3_intern.Base.{ℕ, Bool, false, String, Option, List, []}
use or3_intern.Base.Int.{ℤ}

abbrev pub subject_exec : String
subject_exec = "exec"

abbrev pub subject_skill_exec : String
subject_skill_exec = "skill_execution"

abbrev pub subject_runner_permission : String
subject_runner_permission = "runner_permission"

pub data Status : Type 0 where
  pending : Status
  approved : Status
  denied : Status
  canceled : Status
  expired : Status

-- `config.ApprovalMode`; any other text, as in a configuration that was never loaded, goes the way of
-- `ask`
pub data Mode : Type 0 where
  deny : Mode
  ask : Mode
  allowlist : Mode
  trusted : Mode

pub record Moderator : Type 0 where
  pub reviewed : Bool
  pub status : String
  pub risk : String
  pub action : String
  pub reason : String
  pub model : String
  pub policy_hash : String
  pub latency_ms : ℕ

abbrev pub no_moderator : Moderator
no_moderator = record {
  reviewed = false;
  status = "";
  risk = "";
  action = "";
  reason = "";
  model = "";
  policy_hash = "";
  latency_ms = 0;
}

pub record Request : Type 0 where
  pub kind : String  -- the column `type`
  pub subject_hash : String
  pub subject_json : String
  pub requester_agent_id : String
  pub requester_session_id : String
  pub requester_context_json : String
  pub execution_host_id : String
  pub status : Status
  pub policy_mode : Mode
  pub requested_at : ℕ
  pub expires_at : ℕ
  pub resolved_at : ℕ
  pub resolver_actor_id : String
  pub resolution_kind : String
  pub resolution_note : String
  pub moderator : Moderator  -- the columns `moderator_…` but the next; `reviewed` is no column
  pub moderator_reviewed_at : ℕ

pub record Token : Type 0 where
  pub approval_request_id : ℕ
  pub subject_hash : String
  pub issued_at : ℕ
  pub expires_at : ℕ
  pub issuer : String
  pub revoked_at : ℕ

-- `AllowlistMatchKeys`, the columns `scope_…` and `match_…`
pub record Keys : Type 0 where
  pub scope_host_id : String
  pub scope_tool : String
  pub scope_profile : String
  pub scope_agent : String
  pub match_executable_path : String
  pub match_working_dir : String
  pub match_script_hash : String
  pub match_skill_id : String
  pub match_plan_hash : String
  pub match_runner_id : String
  pub match_target_path : String
  pub match_path_prefix : String
  pub match_fingerprint : String

pub record Allowlist : Type 0 where
  pub domain : String
  pub scope_json : String
  pub matcher_json : String
  pub created_by : String
  pub created_at : ℕ
  pub expires_at : ℕ
  pub disabled_at : ℕ
  pub keys : Keys

-- the three tables, each with the number that AUTOINCREMENT gives to the next row
pub record Store : Type 0 where
  pub requests : List (ℕ × Request)
  pub next_request : ℕ
  pub tokens : List (ℕ × Token)
  pub next_token : ℕ
  pub allowlists : List (ℕ × Allowlist)
  pub next_allowlist : ℕ

abbrev pub empty_store : Store
empty_store = record {
  requests = [];
  next_request = 1;
  tokens = [];
  next_token = 1;
  allowlists = [];
  next_allowlist = 1;
}

pub record ExecSubject : Type 0 where
  pub execution_host_id : String
  pub sandbox_id : String
  pub executable_path : String
  pub argv : List String
  pub working_dir : String
  pub env_binding_hash : String
  pub script_hash : String
  pub requesting_agent : String
  pub session_id : String
  pub tool_name : String
  pub access_profile : String

pub record SkillExecutionSubject : Type 0 where
  pub skill_id : String
  pub version : String
  pub origin : String
  pub trust_state : String
  pub tool_name : String
  pub plan_hash : String
  pub script_hash : String
  pub execution_host_id : String
  pub env_binding_hash : String
  pub timeout_seconds : ℤ
  pub requesting_agent : String

pub record RunnerPermissionSubject : Type 0 where
  pub execution_host_id : String
  pub runner_id : String
  pub permission_kind : String
  pub access : String
  pub target_path : String
  pub requesting_agent : String
  pub session_id : String

-- the subjects that are evaluated; the field `Type` is the constructor
pub data Subject : Type 0 where
  exec : ExecSubject → Subject
  runner_permission : RunnerPermissionSubject → Subject

pub record Scope : Type 0 where
  pub host_id : String
  pub tool : String
  pub profile : String
  pub agent : String

pub record ExecMatcher : Type 0 where
  pub executable_path : String
  pub path_glob : String
  pub argv : List String
  pub working_dir : String
  pub working_dir_pref : String
  pub script_hash : String

pub record SkillMatcher : Type 0 where
  pub skill_id : String
  pub version : String
  pub origin : String
  pub trust_state : String
  pub plan_hash : String
  pub script_hash : String
  pub env_binding_hash : String
  pub timeout_seconds : ℤ

pub record RunnerPermissionMatcher : Type 0 where
  pub runner_id : String
  pub permission_kind : String
  pub access : String
  pub target_path : String
  pub path_prefix : String

-- the dynamic type of the source's `matcher any`
pub data Matcher : Type 0 where
  exec : ExecMatcher → Matcher
  skill : SkillMatcher → Matcher
  runner_permission : RunnerPermissionMatcher → Matcher

pub record Claims : Type 0 where
  pub token_id : ℕ
  pub request_id : ℕ
  pub subject_hash : String
  pub execution_host : String
  pub issued_at : ℕ
  pub expires_at : ℕ

pub record Decision : Type 0 where
  pub allowed : Bool
  pub requires_approval : Bool
  pub request_id : ℕ
  pub subject_hash : String
  pub reason : String
  pub moderator : Moderator

pub record Broker : Type 0 where
  pub has_db : Bool
  pub sign_key : String
  pub host_id : String
  pub config_host_id : String
  pub exec_mode : Mode
  pub message_send_mode : Mode
  pub pending_ttl_seconds : ℕ
  pub approval_token_ttl_seconds : ℕ

-- The encodings of Go's standard library, as functions: encoding/json (a type's name is the type it
-- reads), crypto/sha256 and crypto/hmac, encoding/hex and encoding/base64, and filepath.Match,
-- which fails on a malformed pattern. `none` is an error.
pub record Codec : Type 0 where
  pub subject_json : Subject → String
  pub read_exec_subject : String → Option ExecSubject
  pub read_skill_subject : String → Option SkillExecutionSubject
  pub read_runner_subject : String → Option RunnerPermissionSubject
  pub scope_json : Scope → String
  pub read_scope : String → Option Scope
  pub matcher_json : Matcher → String
  pub read_exec_matcher : String → Option ExecMatcher
  pub read_skill_matcher : String → Option SkillMatcher
  pub read_runner_matcher : String → Option RunnerPermissionMatcher
  pub claims_json : Claims → String
  pub read_claims : String → Option Claims
  pub sha256_hex : String → String
  pub hmac : String → String → String
  pub hex_encode : String → String
  pub hex_decode : String → Option String
  pub base64_encode : String → String
  pub base64_decode : String → Option String
  pub path_match : String → String → Option Bool

pub data Error : Type 0 where
  token_format : Error
  token_signature : Error
  token_payload : Error
  token_expired : Error
  token_host_mismatch : Error
  token_subject_mismatch : Error
  token_store_unavailable : Error
  token_not_found : Error
  token_used : Error
  broker_unavailable : Error
  signing_key_unavailable : Error
  not_found : Error
  not_pending : Error
  request_expired : Error
  unique_constraint : Error
  malformed_json : Error
  allowlist_not_found : Error
  invalid_matcher : Error
