-- ===== src/Approval/Evaluate.antt =====
-- internal/approval/evaluate.go and request_create.go: whether an action may run. The audit trail, whose
-- errors the source drops, is left out.
pub mod Granted
use or3_intern.Base.{
  ℕ, ◌+◌, ◌*◌, ◌==◌, String, str_eq, Bool, true, false, not, ◌&&◌, ◌||◌, Option, none, some, ◌⊎◌,
  inl, inr, List, [], ◌∷◌, ◌++◌, if◌then◌else◌,
}
use or3_intern.Base.Text.{trim_space, is_blank}
use or3_intern.Approval.Types.{
  subject_exec, subject_runner_permission, Codec, Broker, Scope, Matcher, Subject, exec,
  runner_permission, ExecSubject, RunnerPermissionSubject, Mode, deny, ask, allowlist, trusted,
  Moderator, no_moderator, Request, pending, Store, Decision, Claims, Error,
}
use or3_intern.Approval.Store.{create_or_get_pending, update_moderator}
use or3_intern.Approval.Tokens.{host_id, verify_approval_token}
use or3_intern.Approval.Allowlist.{allowlist_matches}

-- the times that an evaluation reads, in this order
pub record Clock : Type 0 where
  pub token_at : ℕ
  pub consume_at : ℕ
  pub match_at : ℕ
  pub create_at : ℕ

pub record SubjectHash : Type 0 where
  pub json : String
  pub hash : String

-- `firstNonEmpty` of a value and a default that is not blank
unfoldable pub first_non_empty : String → String → String
first_non_empty value default = if is_blank value then default else trim_space value

unfoldable pub subject_kind : Subject → String
subject_kind (exec s) = subject_exec
subject_kind (runner_permission s) = subject_runner_permission

-- `extractSessionID`
unfoldable pub session_of : Subject → String
session_of (exec s) = s.session_id
session_of (runner_permission s) = s.session_id

unfoldable pub refused : String → String → Decision
refused hash reason = record {
  allowed = false;
  requires_approval = false;
  request_id = 0;
  subject_hash = hash;
  reason = reason;
  moderator = no_moderator;
}

unfoldable pub permitted : String → String → ℕ → Decision
permitted hash reason request_id = record {
  allowed = true;
  requires_approval = false;
  request_id = request_id;
  subject_hash = hash;
  reason = reason;
  moderator = no_moderator;
}

-- the decision on a request that was made or found
unfoldable pub decide_requested :
    String → Store × (Error ⊎ ((ℕ × Request) × Bool)) → Store × (Error ⊎ Decision)
decide_requested hash (s, inl e) = (s, inl e)
decide_requested hash (s, inr ((id, row), reused)) = (
  s,
  inr (record {
    allowed = false;
    requires_approval = true;
    request_id = id;
    subject_hash = hash;
    reason = "approval required";
    moderator = no_moderator;
  }),
)

module _ (c : Codec) (b : Broker) where
  unfoldable pub canonical_subject_hash : Subject → SubjectHash
  canonical_subject_hash subject = record {
    json = c.subject_json subject;
    hash = c.sha256_hex (c.subject_json subject);
  }

  unfoldable pub check_existing_token : Clock → String → String → Store → Store × Option Decision
  check_existing_token clock token hash s =
      if is_blank token
      then (s, none)
      else (let (s', r) =
            verify_approval_token c b clock.token_at clock.consume_at token hash (host_id b) s in
          elim r [
            | inl _ ↦ (s', none)
            | inr claims ↦ (s', some (permitted hash "approved_token" claims.request_id))
          ])

  -- the default case of `checkPolicyMode`
  unfoldable pub check_broker : String → Option Decision
  check_broker hash =
      if not b.has_db || str_eq b.sign_key ""
      then some (refused hash "approval broker unavailable")
      else none

  unfoldable pub check_policy_mode : String → Mode → Option Decision
  unfolding check_broker
  check_policy_mode hash trusted = some (permitted hash "trusted" 0)
  check_policy_mode hash deny = some (refused hash "approval denied by policy")
  check_policy_mode hash ask = check_broker hash
  check_policy_mode hash allowlist = check_broker hash

  -- an error of the search counts as no match
  unfoldable pub check_allowlist :
      Clock → Subject → Scope → Matcher → String → Mode → Store → Option Decision
  check_allowlist clock subject scope matcher hash allowlist s =
      elim (allowlist_matches c clock.match_at (subject_kind subject) scope matcher s) [
        | some true ↦ some (permitted hash "allowlist" 0)
        | _ ↦ none
      ]
  check_allowlist clock subject scope matcher hash _ s = none

  unfoldable pub new_request : Clock → String → Subject → SubjectHash → Scope → Mode → Request
  new_request clock requester_context subject sh scope mode = record {
    kind = subject_kind subject;
    subject_hash = sh.hash;
    subject_json = sh.json;
    requester_agent_id = scope.agent;
    requester_session_id = session_of subject;
    requester_context_json = requester_context;
    execution_host_id = host_id b;
    status = pending;
    policy_mode = mode;
    requested_at = clock.create_at;
    expires_at = clock.create_at + b.pending_ttl_seconds * 1000;
    resolved_at = 0;
    resolver_actor_id = "";
    resolution_kind = "";
    resolution_note = "";
    moderator = no_moderator;
    moderator_reviewed_at = 0;
  }

  unfoldable pub require_approval :
      Clock → String → Subject → SubjectHash → Scope → Mode → Store → Store × (Error ⊎ Decision)
  unfolding new_request
  require_approval clock requester_context subject sh scope mode s = decide_requested sh.hash (
      create_or_get_pending (new_request clock requester_context subject sh scope mode)
        clock.create_at s)

  -- The update of the moderator's columns comes right after the request is made; `Clock` gives both the
  -- same time.
  unfoldable pub note_moderator :
      Clock → Moderator → Store × (Error ⊎ Decision) → Store × (Error ⊎ Option Decision)
  note_moderator clock moderator (s, inl e) = (s, inl e)
  note_moderator clock moderator (s, inr d) = (
    if b.has_db && not (d.request_id == 0)
        then update_moderator d.request_id moderator clock.create_at s
        else s,
    inr (some (record d { moderator = moderator })),
  )

  -- `applyRunnerPermissionAutopilot`, after the review
  unfoldable pub apply_autopilot :
      Clock
      → String
      → Moderator
      → Subject
      → SubjectHash
      → Scope
      → Mode
      → Store
      → Store × (Error ⊎ Option Decision)
  apply_autopilot clock requester_context moderator subject sh scope mode s =
      if not moderator.reviewed
      then (s, inr none)
      else if str_eq moderator.action "approve_once"
      then (
        s,
        inr (some (record (permitted sh.hash "moderator_approved" 0) { moderator = moderator })),
      )
      else note_moderator clock moderator
          (require_approval clock requester_context subject sh scope mode s)

  -- what follows the policy and the allowlist: the hook, if it decides, and else a request
  unfoldable pub decide_by_request :
      Clock
      → String
      → Moderator
      → Subject
      → SubjectHash
      → Scope
      → Mode
      → Store
      → Store × (Error ⊎ Decision)
  decide_by_request clock requester_context moderator subject sh scope mode s =
      let (s', r) = apply_autopilot clock requester_context moderator subject sh scope mode s in
      elim r [
        | inl e ↦ (s', inl e)
        | inr (some d) ↦ (s', inr d)
        | inr none ↦ require_approval clock requester_context subject sh scope mode s'
      ]

  -- `evaluateWithMode`; the moderator is the hook's, and one that has not reviewed stands for no hook
  unfoldable pub evaluate_with_mode :
      Clock
      → String
      → Moderator
      → Subject
      → String
      → Mode
      → Scope
      → Matcher
      → Store
      → Store × (Error ⊎ Decision)
  evaluate_with_mode clock requester_context moderator subject token mode scope matcher s =
      let sh = canonical_subject_hash subject in
      let (s', existing) = check_existing_token clock token sh.hash s in
      elim existing [
        | some d ↦ (s', inr d)
        | none ↦ elim (check_policy_mode sh.hash mode) [
          | some d ↦ (s', inr d)
          | none ↦ elim (check_allowlist clock subject scope matcher sh.hash mode s') [
            | some d ↦ (s', inr d)
            | none ↦ decide_by_request clock requester_context moderator subject sh scope mode s'
          ]
        ]
      ]

pub record ExecEvaluation : Type 0 where
  pub executable_path : String
  pub argv : List String
  pub working_dir : String
  pub env_binding_hash : String
  pub script_hash : String
  pub agent_id : String
  pub session_id : String
  pub tool_name : String
  pub access_profile : String
  pub sandbox_id : String
  pub approval_token : String

unfoldable pub exec_subject : Broker → ExecEvaluation → ExecSubject
exec_subject b req = record {
  execution_host_id = host_id b;
  sandbox_id = trim_space req.sandbox_id;
  executable_path = trim_space req.executable_path;
  argv = req.argv;
  working_dir = trim_space req.working_dir;
  env_binding_hash = trim_space req.env_binding_hash;
  script_hash = trim_space req.script_hash;
  requesting_agent = trim_space req.agent_id;
  session_id = trim_space req.session_id;
  tool_name = first_non_empty req.tool_name "exec";
  access_profile = trim_space req.access_profile;
}

unfoldable pub exec_scope : ExecSubject → Scope
exec_scope s = record {
  host_id = s.execution_host_id;
  tool = s.tool_name;
  profile = s.access_profile;
  agent = s.requesting_agent;
}

unfoldable pub exec_matcher : ExecSubject → Matcher
exec_matcher s = exec (record {
  executable_path = s.executable_path;
  path_glob = "";
  argv = s.argv;
  working_dir = s.working_dir;
  working_dir_pref = "";
  script_hash = s.script_hash;
})

unfoldable pub evaluate_exec :
    Codec → Broker → Clock → String → ExecEvaluation → Store → Store × (Error ⊎ Decision)
unfolding exec_subject exec_scope exec_matcher
evaluate_exec c b clock requester_context req s =
    let subject = exec_subject b req in
    evaluate_with_mode c b clock requester_context no_moderator (exec subject) req.approval_token
      b.exec_mode (exec_scope subject) (exec_matcher subject) s
