-- ===== src/Approval/Requests/Settled.antt =====
-- A request that was decided stays as it was decided.
use or3_intern.Base.{
  ℕ, ◌+◌, ◌*◌, ◌≡◌, refl, ap, ◌∙◌, String, str_eq, Bool, true, false, not, some, ◌⊎◌, inl, inr,
  List, arith, Bool-cases, Option-cases, if◌then◌else◌,
}
use or3_intern.Base.Text.{trim_space}
use or3_intern.Base.Table.{find, update, find-update}
use or3_intern.Approval.Types.{
  Codec, Broker, Allowlist, Status, denied, canceled, expired, Request, Store, Error, not_pending,
}
use or3_intern.Approval.Store.{
  is_pending, resolve_request, resolve_row, pending_row, is_expired_row, expire_requests,
  approve_row, approve_with_artifacts, Artifacts,
}
use or3_intern.Approval.Requests.{
  status_text, resolve, deny_request, cancel_request, expire_pending, approve_request, sign_issued,
  allowlist_from_request, resolution_kind,
}

-- an update of pending rows alone leaves a row that is not pending
find-update_settled :
    (c : ℕ → Request → Bool) (f : Request → Request) (id : ℕ) (t : List (ℕ × Request)) (r : Request)
    → find id t ≡ some r
    → c id r ≡ false
    → find id (update c f t) ≡ some r
find-update_settled c f id t r found kept =
    find-update c f id t r found ∙ ap (λ b. some (if b then f r else r)) kept

resolve_settled :
    (now id : ℕ) (actor : String) (target : Status) (note : String) (r : Request) (s : Store)
    → find id s.requests ≡ some r
    → is_pending r.status ≡ false
    → resolve now id actor target note s ≡ (s, inl not_pending)
unfolding resolve
resolve_settled now id actor target note r s found settled = rw (resolve, found, settled) refl

approve_with_artifacts_settled :
    (id : ℕ) (actor : String) (always_allow : Bool) (kind note : String) (now expires : ℕ)
    (build : Request → Error ⊎ Allowlist) (r : Request) (s : Store)
    → find id s.requests ≡ some r
    → is_pending r.status ≡ false
    → approve_with_artifacts id actor always_allow kind note now expires build s
      ≡ (s, inl not_pending)
unfolding approve_with_artifacts approve_row
approve_with_artifacts_settled id actor always_allow kind note now expires build r s found settled =
    rw (approve_with_artifacts, found, approve_row, settled) refl

-- what every operation leaves of the request `id`, whose row is `r`
pub record Settled (c : Codec) (b : Broker) (now later id : ℕ) (actor note : String)
    (always_allow : Bool) (r : Request) (s : Store) : Type 0 where
  pub no_denial : deny_request now id actor note s ≡ (s, inl not_pending)
  pub no_cancellation : cancel_request now id actor note s ≡ (s, inl not_pending)
  pub no_approval :
      approve_request c b now later id actor always_allow note s ≡ (s, inl not_pending)
  pub no_expiry : find id (expire_pending now actor s).0.requests ≡ some r
  pub others_denied :
      (other : ℕ) → find id (deny_request now other actor note s).0.requests ≡ some r

resolve_request_settled :
    (other id : ℕ) (target : Status) (now : ℕ) (actor kind note : String) (r : Request) (s : Store)
    → find id s.requests ≡ some r
    → is_pending r.status ≡ false
    → find id (resolve_request other target now actor kind note s).0.requests ≡ some r
unfolding resolve_request
resolve_request_settled other id target now actor kind note r s found settled =
    find-update_settled (pending_row other) (resolve_row target now actor kind note) id s.requests r
      found (unfold pending_row in ground (arith, settled))

resolve_other :
    (now other id : ℕ) (actor : String) (target : Status) (note : String) (r : Request) (s : Store)
    → find id s.requests ≡ some r
    → is_pending r.status ≡ false
    → find id (resolve now other actor target note s).0.requests ≡ some r
unfolding resolve
resolve_other now other id actor target note r s found settled =
    let kind = status_text target in
    let after = resolve_request other target now (trim_space actor) kind (trim_space note) s in
    let kept =
      resolve_request_settled other id target now (trim_space actor) kind (trim_space note) r s
        found settled in
    elim (Option-cases (find other s.requests)) [
      | inl missing ↦ rw (resolve, missing) found
      | inr (req, there) ↦ elim (Bool-cases (is_pending req.status)) [
        | inr decided ↦ rw (resolve, there, decided) found
        | inl waits ↦ elim (Bool-cases after.1) [
          | inl resolved ↦ rw (resolve, there, waits, resolved) kept
          | inr lost ↦ rw (resolve, there, waits, lost) kept
        ]
      ]
    ]

approve_request_settled :
    (c : Codec) (b : Broker) (now later id : ℕ) (actor : String) (always_allow : Bool)
    (note : String) (r : Request) (s : Store)
    → b.has_db ≡ true
    → str_eq b.sign_key "" ≡ false
    → find id s.requests ≡ some r
    → is_pending r.status ≡ false
    → approve_request c b now later id actor always_allow note s ≡ (s, inl not_pending)
unfolding approve_request
approve_request_settled c b now later id actor always_allow note r s there keyed found settled =
    let expires = now + b.approval_token_ttl_seconds * 1000 in
    let refused =
      approve_with_artifacts_settled id actor always_allow (resolution_kind always_allow) note now
        expires (allowlist_from_request c later actor) r s found settled in
    open_to b.has_db (str_eq b.sign_key "") _ _ _ there keyed
    ∙ ap (sign_issued c b id) refused
    ∙ unfold sign_issued in refl
  where
    open_to :
        (here unsigned : Bool) (x y r : Store × (Error ⊎ (Artifacts × String)))
        → here ≡ true
        → unsigned ≡ false
        → (if not here then x else if unsigned then y else r) ≡ r
    open_to true false x y r there keyed = refl
    open_to true true x y r there keyed = absurd (cc)
    open_to false unsigned x y r there keyed = absurd (cc)

-- A request is decided once. Where it is no longer pending, denying, cancelling and approving it fail with
-- `not_pending` and change nothing, and neither an expiry nor the denial of any other request changes
-- its row. The broker has a store and a key.
pub approve_request-Settled :
    (c : Codec) (b : Broker) (now later id : ℕ) (actor note : String) (always_allow : Bool)
    (r : Request) (s : Store)
    → b.has_db ≡ true
    → str_eq b.sign_key "" ≡ false
    → find id s.requests ≡ some r
    → is_pending r.status ≡ false
    → Settled c b now later id actor note always_allow r s
unfolding deny_request cancel_request expire_pending expire_requests
approve_request-Settled c b now later id actor note always_allow r s there keyed found settled =
    record {
      no_denial = resolve_settled now id actor denied note r s found settled;
      no_cancellation = resolve_settled now id actor canceled note r s found settled;
      no_approval =
          approve_request_settled c b now later id actor always_allow note r s there keyed found
            settled;
      no_expiry =
          find-update_settled (is_expired_row now)
            (resolve_row expired now (trim_space actor) "expired" "expired by operator request") id
            s.requests r found (unfold is_expired_row in ground (arith, settled));
      others_denied = λ other. resolve_other now other id actor denied note r s found settled;
    }
