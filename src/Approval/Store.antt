-- ===== src/Approval/Store.antt =====
-- internal/db/approval_store.go: the statements on requests, tokens and allowlists. Each function is one
-- statement or one transaction; failures of SQLite itself are left out.
pub mod Pending
use or3_intern.Base.{
  ℕ, ◌+◌, ◌==◌, String, str_eq, Bool, true, false, not, ◌&&◌, Option, none, some, ◌⊎◌, inl, inr,
  List, ◌∷◌, ltb, leb, if◌then◌else◌,
}
use or3_intern.Base.Text.{trim_space, is_blank}
use or3_intern.Base.Table.{find, find_where, update, affected}
use or3_intern.Approval.Types.{
  Status, pending, approved, denied, canceled, expired, Moderator, Request, Token, Allowlist, Store,
  Error, not_found, not_pending, request_expired, unique_constraint,
}

unfoldable pub is_pending : Status → Bool
is_pending pending = true
is_pending approved = false
is_pending denied = false
is_pending canceled = false
is_pending expired = false

unfoldable pub same_subject : Request → Request → Bool
same_subject a b =
    str_eq a.kind b.kind
    && str_eq a.subject_hash b.subject_hash
    && str_eq a.execution_host_id b.execution_host_id

-- `findPendingApprovalRequestTx`
unfoldable pub find_pending : Request → ℕ → List (ℕ × Request) → Option (ℕ × Request)
find_pending input now =
    find_where (λ r. same_subject r input && is_pending r.status && ltb now r.expires_at)

-- whether the unique index approval_requests_active_pending_subject refuses the row
unfoldable pub is_duplicate : Request → List (ℕ × Request) → Bool
is_duplicate input requests =
    elim (find_where (λ r. same_subject r input && is_pending r.status) requests) [
      | none ↦ false
      | some _ ↦ is_pending input.status
    ]

-- `CreateOrGetPendingApprovalRequest`: the row and whether it was there. The second look for it, after
-- the constraint failed, is in the same transaction and finds what the first found.
unfoldable pub create_or_get_pending :
    Request → ℕ → Store → Store × (Error ⊎ ((ℕ × Request) × Bool))
create_or_get_pending input now s = elim (find_pending input now s.requests) [
  | some row ↦ (s, inr (row, true))
  | none ↦ if is_duplicate input s.requests then (s, inl unique_constraint) else (
    record s { requests = (s.next_request, input) ∷ s.requests; next_request = s.next_request + 1 },
    inr ((s.next_request, input), false),
  )
]

-- SET status=?, resolved_at=?, resolver_actor_id=?, resolution_kind=?, resolution_note=?
unfoldable pub resolve_row : Status → ℕ → String → String → String → Request → Request
resolve_row status now actor kind note r = record r {
  status = status;
  resolved_at = now;
  resolver_actor_id = actor;
  resolution_kind = kind;
  resolution_note = note;
}

-- WHERE id=? AND status='pending'
unfoldable pub pending_row : ℕ → ℕ → Request → Bool
pending_row id j r = j == id && is_pending r.status

-- `ResolveApprovalRequest`, with the only `fromStatus` that it is called with
unfoldable pub resolve_request : ℕ → Status → ℕ → String → String → String → Store → Store × Bool
resolve_request id status now actor kind note s = (
  record s {
    requests = update (pending_row id) (resolve_row status now actor kind note) s.requests;
  },
  affected (pending_row id) s.requests == 1,
)

unfoldable pub is_expired_row : ℕ → ℕ → Request → Bool
is_expired_row now j r = is_pending r.status && ltb 0 r.expires_at && leb r.expires_at now

-- `ExpireApprovalRequestsReturning`: the count
unfoldable pub expire_requests : ℕ → String → String → Store → Store × ℕ
expire_requests now actor note s = (
  record s {
    requests =
        update (is_expired_row now) (resolve_row expired now actor "expired" note) s.requests;
  },
  affected (is_expired_row now) s.requests,
)

unfoldable pub update_moderator : ℕ → Moderator → ℕ → Store → Store
update_moderator id moderator reviewed_at s = record s {
  requests =
      update (λ j _. j == id)
        (λ r. record r { moderator = moderator; moderator_reviewed_at = reviewed_at }) s.requests;
}

unfoldable pub same_fingerprint : Allowlist → Allowlist → Bool
same_fingerprint input row =
    str_eq row.domain input.domain
    && str_eq row.keys.match_fingerprint input.keys.match_fingerprint
    && row.disabled_at == 0

-- `CreateOrGetApprovalAllowlist` and `createOrGetApprovalAllowlistTx`. The unique index on the
-- fingerprint refuses nothing that the first look does not find.
unfoldable pub create_or_get_allowlist : Allowlist → Store → Store × (ℕ × Allowlist)
create_or_get_allowlist input s =
    let fresh : Store × (ℕ × Allowlist) = (
      record s {
        allowlists = (s.next_allowlist, input) ∷ s.allowlists;
        next_allowlist = s.next_allowlist + 1;
      },
      (s.next_allowlist, input),
    ) in
    if is_blank input.keys.match_fingerprint
    then fresh
    else elim (find_where (same_fingerprint input) s.allowlists) [
      | some row ↦ (s, row)
      | none ↦ fresh
    ]

unfoldable pub enabled_row : ℕ → ℕ → Allowlist → Bool
enabled_row id j row = j == id && row.disabled_at == 0

unfoldable pub disable_allowlist : ℕ → ℕ → Store → Store × Bool
disable_allowlist id now s = (
  record s {
    allowlists = update (enabled_row id) (λ a. record a { disabled_at = now }) s.allowlists;
  },
  ltb 0 (affected (enabled_row id) s.allowlists),
)

-- the request as it was, the number of the allowlist row or 0, and the token's number and row
pub record Artifacts : Type 0 where
  pub request : Request
  pub allowlist_id : ℕ
  pub token_id : ℕ
  pub token : Token

-- from the label `issueToken` on
unfoldable pub issue_token : ℕ → String → ℕ → ℕ → Request → ℕ → Store → Store × Artifacts
issue_token id actor now token_expires_at req allowlist_id s =
    let t : Token = record {
      approval_request_id = id;
      subject_hash = req.subject_hash;
      issued_at = now;
      expires_at = token_expires_at;
      issuer = trim_space actor;
      revoked_at = 0;
    } in
    (
      record s { tokens = (s.next_token, t) ∷ s.tokens; next_token = s.next_token + 1 },
      record { request = req; allowlist_id = allowlist_id; token_id = s.next_token; token = t },
    )

-- `if alwaysAllow && buildAllowlist != nil { … }`: the store and the number of the allowlist row or 0
unfoldable pub allowlist_artifact :
    Bool → (Request → Error ⊎ Allowlist) → Request → Store → Error ⊎ (Store × ℕ)
allowlist_artifact false build req s = inr (s, 0)
allowlist_artifact true build req s = elim (build req) [
  | inl e ↦ inl e
  | inr row ↦
      if is_blank row.domain
      then inr (s, 0)
      else (let (s', (allowlist_id, _)) = create_or_get_allowlist row s in inr (s', allowlist_id))
]

-- the token, or the rollback to the store before
unfoldable pub issue_or_fail :
    ℕ → String → ℕ → ℕ → Request → Store → Error ⊎ (Store × ℕ) → Store × (Error ⊎ Artifacts)
issue_or_fail id actor now token_expires_at req before (inl e) = (before, inl e)
issue_or_fail id actor now token_expires_at req before (inr (s, allowlist_id)) =
    let (s', out) = issue_token id actor now token_expires_at req allowlist_id s in (s', inr out)

-- `ApproveRequestWithArtifacts` of a request that was read; an error rolls the transaction back
unfoldable pub approve_row :
    ℕ
    → String
    → Bool
    → String
    → String
    → ℕ
    → ℕ
    → (Request → Error ⊎ Allowlist)
    → Request
    → Store
    → Store × (Error ⊎ Artifacts)
approve_row id actor always_allow kind note now token_expires_at build req s =
    let (s₁, resolved) =
      resolve_request id approved now (trim_space actor) kind (trim_space note) s in
    if not (is_pending req.status)
    then (s, inl not_pending)
    else if ltb 0 req.expires_at && ltb req.expires_at now
    then (s, inl request_expired)
    else if not resolved
    then (s, inl not_pending)
    else issue_or_fail id actor now token_expires_at req s
        (allowlist_artifact always_allow build req s₁)

unfoldable pub approve_with_artifacts :
    ℕ
    → String
    → Bool
    → String
    → String
    → ℕ
    → ℕ
    → (Request → Error ⊎ Allowlist)
    → Store
    → Store × (Error ⊎ Artifacts)
unfolding approve_row
approve_with_artifacts id actor always_allow kind note now token_expires_at build s =
    elim (find id s.requests) [
      | none ↦ (s, inl not_found)
      | some req ↦ approve_row id actor always_allow kind note now token_expires_at build req s
    ]

-- WHERE id=? AND revoked_at=0
unfoldable pub unused_token : ℕ → ℕ → Token → Bool
unused_token id j t = j == id && t.revoked_at == 0

unfoldable pub consume_token : ℕ → ℕ → Store → Store × Bool
consume_token id now s = (
  record s { tokens = update (unused_token id) (λ t. record t { revoked_at = now }) s.tokens },
  ltb 0 (affected (unused_token id) s.tokens),
)
