-- ===== src/Approval/Autopilot.antt =====
-- internal/approval/runner_autopilot.go, and the evaluation of a runner's permissions in evaluate.go.
pub mod Rules
pub mod Safe
use text.Mathlib.Text.{starts_with}
use or3_intern.Base.{
  ℕ, suc, ◌==◌, String, str_eq, Bool, true, false, not, ◌&&◌, ◌||◌, Option, none, some, ◌⊎◌, List,
  [], ◌∷◌, any, leb, if◌then◌else◌,
}
use or3_intern.Base.Text.{trim_space, to_lower, contains, member, all_chars}
use or3_intern.Base.FilePath.{split_slash, clean, base, ends_with}
use or3_intern.Approval.Types.{
  Codec, Broker, Scope, Matcher, runner_permission, RunnerPermissionSubject, Moderator,
  no_moderator, Store, Decision, Error,
}
use or3_intern.Approval.Tokens.{host_id}
use or3_intern.Approval.Evaluate.{Clock, first_non_empty, evaluate_with_mode}

pub record RunnerPermissionEvaluation : Type 0 where
  pub runner_id : String
  pub permission_kind : String
  pub access : String
  pub target_path : String
  pub agent_id : String
  pub session_id : String
  pub approval_token : String
  pub autopilot : Bool
  pub runner_mode : String

-- the loop of `runnerAutopilotPathSegments`; the slashes that it trims first make empty parts only
unfoldable pub keep_segments : List String → List String
keep_segments [] = []
keep_segments (part ∷ parts) =
    let rest = keep_segments parts in
    if str_eq (trim_space part) "" || str_eq (trim_space part) "."
    then rest
    else trim_space part ∷ rest

unfoldable pub path_segments : String → List String
unfolding keep_segments
path_segments target = keep_segments (split_slash (clean target))

abbrev pub sensitive_directories : List String
sensitive_directories = ".ssh" ∷ ".gnupg" ∷ ".aws" ∷ ".config" ∷ []

unfoldable pub is_sensitive_segment : String → Bool
is_sensitive_segment segment = member (to_lower segment) sensitive_directories

-- `runnerAutopilotSystemPath`
unfoldable pub system_path : List String → Bool
system_path [] = false
system_path (first ∷ rest) =
    str_eq (to_lower first) "etc"
    || (str_eq (to_lower first) "var"
        && elim rest [ [] ↦ false | second ∷ _ ↦ str_eq (to_lower second) "db" ])

unfoldable pub sensitive_basename : String → Bool
sensitive_basename name =
    member name (".env" ∷ "approvals.key" ∷ "config.json" ∷ "config.yaml" ∷ "config.yml" ∷ [])
    || starts_with name ".env."

unfoldable pub sensitive_keyword : String → Bool
sensitive_keyword name =
    any (λ word. contains name word)
      ("secret" ∷ "token" ∷ "credential" ∷ "keychain" ∷ "approval" ∷ "sandbox" ∷ "security" ∷ [])

unfoldable pub has_no_segment : List String → Bool
has_no_segment [] = true
has_no_segment (segment ∷ segments) = false

-- `runnerAutopilotSensitiveTarget`
unfoldable pub sensitive_target : String → Bool
unfolding has_no_segment
sensitive_target target =
    let segments = path_segments target in
    let name = to_lower (base target) in
    not (has_no_segment segments)
    && (any is_sensitive_segment segments
        || system_path segments
        || sensitive_basename name
        || sensitive_keyword name)

-- `runnerAutopilotBroadWrite`
unfoldable pub broad_write : String → Bool
broad_write target =
    all_chars (λ c. c == 47) target
    || any (λ suffix. ends_with target suffix) ("/" ∷ "/.." ∷ "/." ∷ "/*" ∷ [])

-- a text in lower case, or its default where it is blank
unfoldable pub lower_or : String → String → String
lower_or value default =
    let lower = to_lower (trim_space value) in if str_eq lower "" then default else lower

unfoldable pub reviewed_as : String → String → String → Moderator
reviewed_as risk action reason = record {
  reviewed = true;
  status = "reviewed";
  risk = risk;
  action = action;
  reason = reason;
  model = "or3-policy";
  policy_hash = "runner-autopilot-v1";
  latency_ms = 0;
}

-- the tests of the access
unfoldable pub review_access : String → String → String → Moderator
unfolding reviewed_as
review_access access target mode =
    if str_eq access "read"
    then reviewed_as "low" "approve_once" "Read-only filesystem access is low risk."
    else if str_eq access "write" && not (str_eq mode "review") && not (broad_write target)
    then reviewed_as "medium" "approve_once" "Workspace write request is allowed in Work mode."
    else if str_eq access "write" && str_eq mode "review"
    then reviewed_as "high" "escalate" "Ask mode does not auto-approve writes."
    else reviewed_as "high" "escalate" "Runner permission is outside low-risk autopilot policy."

-- the decision on a kind, an access, a cleaned target and a mode
unfoldable pub review_target : String → String → String → String → Moderator
unfolding reviewed_as review_access
review_target kind access target mode =
    if not (str_eq kind "filesystem")
    then reviewed_as "high" "escalate" "Non-filesystem runner permissions need human review."
    else if str_eq target "" || str_eq target "." || str_eq target "/"
    then reviewed_as "high" "escalate" "Broad filesystem permission needs human review."
    else if sensitive_target target
    then reviewed_as "extreme" "escalate"
        "Sensitive path or configuration change needs human review."
    else review_access access target mode

-- `reviewRunnerPermissionAutopilot`
unfoldable pub review : RunnerPermissionEvaluation → Moderator
unfolding review_target lower_or
review req =
    if not req.autopilot
    then no_moderator
    else review_target (lower_or req.permission_kind "filesystem") (lower_or req.access "read")
        (clean (trim_space req.target_path)) (lower_or req.runner_mode "safe_edit")

unfoldable pub runner_subject : Broker → RunnerPermissionEvaluation → RunnerPermissionSubject
runner_subject b req = record {
  execution_host_id = host_id b;
  runner_id = trim_space req.runner_id;
  permission_kind = first_non_empty req.permission_kind "filesystem";
  access = first_non_empty req.access "read";
  target_path = trim_space req.target_path;
  requesting_agent = trim_space req.agent_id;
  session_id = trim_space req.session_id;
}

unfoldable pub runner_scope : RunnerPermissionSubject → Scope
runner_scope s = record {
  host_id = s.execution_host_id;
  tool = s.runner_id;
  profile = "";
  agent = s.requesting_agent;
}

unfoldable pub runner_matcher : RunnerPermissionSubject → Matcher
runner_matcher s = runner_permission (record {
  runner_id = s.runner_id;
  permission_kind = s.permission_kind;
  access = s.access;
  target_path = s.target_path;
  path_prefix = "";
})

unfoldable pub evaluate_runner_permission :
    Codec
    → Broker
    → Clock
    → String
    → RunnerPermissionEvaluation
    → Store
    → Store × (Error ⊎ Decision)
unfolding review runner_subject runner_scope runner_matcher
evaluate_runner_permission c b clock requester_context req s =
    let subject = runner_subject b req in
    evaluate_with_mode c b clock requester_context (review req) (runner_permission subject)
      req.approval_token b.exec_mode (runner_scope subject) (runner_matcher subject) s
