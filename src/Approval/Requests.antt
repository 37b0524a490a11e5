-- ===== src/Approval/Requests.antt =====
-- internal/approval/requests.go: resolving requests. The audit trail is left out.
pub mod Settled
use or3_intern.Base.{
  ℕ, ◌+◌, ◌*◌, String, str_eq, Bool, true, false, not, ◌&&◌, Option, none, some, ◌⊎◌, inl, inr,
  if◌then◌else◌,
}
use or3_intern.Base.Text.{trim_space, is_blank}
use or3_intern.Base.Table.{find}
use or3_intern.Approval.Types.{
  subject_exec, subject_skill_exec, subject_runner_permission, Codec, Broker, Scope, Matcher, skill,
  runner_permission, Allowlist, Status, denied, canceled, Request, Store, Error, not_found,
  not_pending, broker_unavailable, signing_key_unavailable, malformed_json,
}
use or3_intern.Approval.Store.{
  is_pending, resolve_request, expire_requests, approve_with_artifacts, Artifacts,
}
use or3_intern.Approval.Tokens.{sign_token_from_record}
use or3_intern.Approval.Allowlist.{allowlist_match_keys, no_keys}
use or3_intern.Approval.Evaluate.{exec_scope, exec_matcher}

unfoldable pub status_text : Status → String
status_text Status.pending = "pending"
status_text Status.approved = "approved"
status_text Status.denied = "denied"
status_text Status.canceled = "canceled"
status_text Status.expired = "expired"

-- `resolveRequest`: the request as it was
unfoldable pub resolve : ℕ → ℕ → String → Status → String → Store → Store × (Error ⊎ Request)
resolve now id actor target note s = elim (find id s.requests) [
  | none ↦ (s, inl not_found)
  | some req ↦
      if not (is_pending req.status)
      then (s, inl not_pending)
      else (let (s', resolved) =
            resolve_request id target now (trim_space actor) (status_text target) (trim_space note)
              s in
          if resolved then (s', inr req) else (s', inl not_pending))
]

unfoldable pub deny_request : ℕ → ℕ → String → String → Store → Store × (Error ⊎ Request)
unfolding resolve
deny_request now id actor note = resolve now id actor denied note

unfoldable pub cancel_request : ℕ → ℕ → String → String → Store → Store × (Error ⊎ Request)
unfolding resolve
cancel_request now id actor note = resolve now id actor canceled note

-- `ExpirePendingRequests`
unfoldable pub expire_pending : ℕ → String → Store → Store × ℕ
unfolding expire_requests
expire_pending now actor = expire_requests now (trim_space actor) "expired by operator request"

unfoldable pub resolution_kind : Bool → String
resolution_kind true = "approve_and_allowlist"
resolution_kind false = "approve_once"

module _ (c : Codec) where
  -- `allowlistPayloadFromRequest`: the scope and the matcher, none for other types, or an error
  unfoldable pub payload_from_request : Request → Error ⊎ Option (Scope × Matcher)
  payload_from_request req =
      if str_eq req.kind subject_exec
      then elim (c.read_exec_subject req.subject_json) [
        | none ↦ inl malformed_json
        | some s ↦ inr (some (exec_scope s, exec_matcher s))
      ]
      else if str_eq req.kind subject_skill_exec
      then elim (c.read_skill_subject req.subject_json) [
        | none ↦ inl malformed_json
        | some s ↦ inr (
            some (
              record {
                host_id = s.execution_host_id;
                tool = s.tool_name;
                profile = "";
                agent = s.requesting_agent;
              },
              skill (record {
                skill_id = s.skill_id;
                version = s.version;
                origin = s.origin;
                trust_state = s.trust_state;
                plan_hash = s.plan_hash;
                script_hash = s.script_hash;
                env_binding_hash = s.env_binding_hash;
                timeout_seconds = s.timeout_seconds;
              }),
            ))
      ]
      else if str_eq req.kind subject_runner_permission
      then elim (c.read_runner_subject req.subject_json) [
        | none ↦ inl malformed_json
        | some s ↦ inr (
            some (
              record {
                host_id = s.execution_host_id;
                tool = s.runner_id;
                profile = "";
                agent = s.requesting_agent;
              },
              runner_permission (record {
                runner_id = s.runner_id;
                permission_kind = s.permission_kind;
                access = s.access;
                target_path = "";
                path_prefix = s.target_path;
              }),
            ))
      ]
      else inr none

  -- the zero record, whose blank domain makes the store issue a token alone
  unfoldable pub no_allowlist : Allowlist
  unfolding no_keys
  no_allowlist = record {
    domain = "";
    scope_json = "";
    matcher_json = "";
    created_by = "";
    created_at = 0;
    expires_at = 0;
    disabled_at = 0;
    keys = no_keys (record { host_id = ""; tool = ""; profile = ""; agent = "" });
  }

  -- `allowlistRecordFromRequest`
  unfoldable pub allowlist_from_request : ℕ → String → Request → Error ⊎ Allowlist
  unfolding payload_from_request no_allowlist
  allowlist_from_request now actor req = elim (payload_from_request req) [
    | inl e ↦ inl e
    | inr none ↦ inr no_allowlist
    | inr (some (scope, matcher)) ↦
        if is_blank (c.scope_json scope) && is_blank (c.matcher_json matcher)
        then inr no_allowlist
        else inr (record {
          domain = req.kind;
          scope_json = c.scope_json scope;
          matcher_json = c.matcher_json matcher;
          created_by = actor;
          created_at = now;
          expires_at = 0;
          disabled_at = 0;
          keys = allowlist_match_keys c req.kind scope matcher;
        })
  ]

  -- the token is signed from what the store made
  unfoldable pub sign_issued :
      Broker → ℕ → Store × (Error ⊎ Artifacts) → Store × (Error ⊎ (Artifacts × String))
  sign_issued b id (s, inl e) = (s, inl e)
  sign_issued b id (s, inr out) =
      (s, inr (out, sign_token_from_record c b id out.request out.token_id out.token))

  -- `IssuedApproval`: what the store made, and the token
  unfoldable pub approve_request :
      Broker → ℕ → ℕ → ℕ → String → Bool → String → Store → Store × (Error ⊎ (Artifacts × String))
  unfolding allowlist_from_request resolution_kind
  approve_request b now later id actor always_allow note s =
      if not b.has_db
      then (s, inl broker_unavailable)
      else if str_eq b.sign_key ""
      then (s, inl signing_key_unavailable)
      else sign_issued b id (
          approve_with_artifacts id actor always_allow (resolution_kind always_allow) note now
            (now + b.approval_token_ttl_seconds * 1000) (allowlist_from_request later actor) s)
