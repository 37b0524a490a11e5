-- ===== src/Approval/Machine/Requests.antt =====
-- The statements on requests and the approval transaction keep the invariant of the approval store.
use mathlib.Core.Path.{subst}
use or3_intern.Base.{
  ℕ, ◌+◌, ◌*◌, ◌≡◌, refl, sym, ◌∙◌, ◌==◌, String, str_eq, Bool, true, false, not, ◌&&◌, some, ◌⊎◌,
  inl, inr, List, ◌∷◌, arith, Bool-cases, Option-cases, ltb, if◌then◌else◌,
}
use or3_intern.Base.Text.{trim_space, is_blank}
use or3_intern.Base.Table.{find, find_where, find-update}
use or3_intern.Approval.Types.{
  Codec, Broker, Scope, Matcher, Moderator, Request, Status, approved, expired, Allowlist, Store,
  Error, broker_unavailable, signing_key_unavailable,
}
use or3_intern.Approval.Store.{
  is_pending, create_or_get_pending, find_pending, is_duplicate, resolve_request, resolve_row,
  pending_row, expire_requests, is_expired_row, update_moderator, create_or_get_allowlist,
  same_fingerprint, disable_allowlist, issue_token, allowlist_artifact, approve_row, issue_or_fail,
  approve_with_artifacts, Artifacts,
}
use or3_intern.Approval.Allowlist.{
  add_allowlist, remove_allowlist, allowlist_input, validate_matcher,
}
use or3_intern.Approval.Requests.{
  approve_request, allowlist_from_request, resolution_kind, sign_issued,
}
use or3_intern.Approval.Machine.Sound.{
  Sound, KeepsApproved, update-Sound, insert-Sound, allowlists-Sound, issue_token-Sound,
}

pub create_or_get_pending-Sound :
    (input : Request) (now : ℕ) {log : List ℕ} {s : Store}
    → Sound log s
    → Sound log (create_or_get_pending input now s).0
unfolding create_or_get_pending
create_or_get_pending-Sound input now {s = s} h =
    elim (Option-cases (find_pending input now s.requests)) [
      | inl missing ↦ elim (Bool-cases (is_duplicate input s.requests)) [
        | inl stale ↦ rw (create_or_get_pending, missing, stale) h
        | inr fresh ↦ rw (create_or_get_pending, missing, fresh) (insert-Sound input h)
      ]
      | inr (row, there) ↦ rw (create_or_get_pending, there) h
    ]

is_pending-approved : (st : Status) → st ≡ approved → is_pending st ≡ false
unfolding is_pending
is_pending-approved st e = rw e refl

pending_row_keeps :
    (id now : ℕ) (st : Status) (actor kind note : String)
    → KeepsApproved (pending_row id) (resolve_row st now actor kind note)
unfolding pending_row
pending_row_keeps id now st actor kind note j r is =
    let settled = is_pending-approved r.status is in
    (ground (arith, settled), ground (arith, settled))

pub resolve_request-Sound :
    (id : ℕ) (st : Status) (now : ℕ) (actor kind note : String) {log : List ℕ} {s : Store}
    → Sound log s
    → Sound log (resolve_request id st now actor kind note s).0
unfolding resolve_request
resolve_request-Sound id st now actor kind note h =
    update-Sound (pending_row id) (resolve_row st now actor kind note)
      (pending_row_keeps id now st actor kind note) h

pub expire_requests-Sound :
    (now : ℕ) (actor note : String) {log : List ℕ} {s : Store}
    → Sound log s
    → Sound log (expire_requests now actor note s).0
unfolding expire_requests
expire_requests-Sound now actor note h =
    update-Sound (is_expired_row now) (resolve_row expired now actor "expired" note)
      (λ j r is.
        let settled = is_pending-approved r.status is in
        unfold is_expired_row in (ground (arith, settled), ground (arith, settled)))
      h

pub update_moderator-Sound :
    (id : ℕ) (moderator : Moderator) (now : ℕ) {log : List ℕ} {s : Store}
    → Sound log s
    → Sound log (update_moderator id moderator now s)
unfolding update_moderator
update_moderator-Sound id moderator now h =
    update-Sound (λ j _. j == id)
      (λ r. record r { moderator = moderator; moderator_reviewed_at = now })
      (λ j r is. (ground arith, ground arith)) h

pub create_or_get_allowlist-cases :
    (input : Allowlist) (s : Store)
    → (rows : List (ℕ × Allowlist)) × (n : ℕ) × ((create_or_get_allowlist input s).0
        ≡ record s { allowlists = rows; next_allowlist = n })
unfolding create_or_get_allowlist
create_or_get_allowlist-cases input s = elim (Bool-cases (is_blank input.keys.match_fingerprint)) [
  | inl blank ↦ ((s.next_allowlist, input) ∷ s.allowlists, s.next_allowlist + 1, rw blank refl)
  | inr named ↦ elim (Option-cases (find_where (same_fingerprint input) s.allowlists)) [
    | inl missing ↦
        ((s.next_allowlist, input) ∷ s.allowlists, s.next_allowlist + 1, rw (named, missing) refl)
    | inr (row, there) ↦ (s.allowlists, s.next_allowlist, rw (named, there) refl)
  ]
]

create_or_get_allowlist-Sound :
    (input : Allowlist) {log : List ℕ} {s : Store}
    → Sound log s
    → Sound log (create_or_get_allowlist input s).0
create_or_get_allowlist-Sound input {log} {s = s} h =
    let (rows, n, same) = create_or_get_allowlist-cases input s in
    subst (Sound log) (sym same) (allowlists-Sound rows n h)

module _ (c : Codec) where
  pub add_allowlist-Sound :
      (now : ℕ) (domain : String) (scope : Scope) (matcher : Matcher) (actor : String)
      (expires_at : ℕ) {log : List ℕ} {s : Store}
      → Sound log s
      → Sound log (add_allowlist c now domain scope matcher actor expires_at s).0
  unfolding add_allowlist
  add_allowlist-Sound now domain scope matcher actor expires_at h =
      elim (Bool-cases (validate_matcher domain matcher)) [
        | inl valid ↦ rw valid (
            create_or_get_allowlist-Sound
              (allowlist_input c now domain scope matcher actor expires_at) h)
        | inr invalid ↦ rw invalid h
      ]

pub remove_allowlist-Sound :
    (now id : ℕ) {log : List ℕ} {s : Store} → Sound log s → Sound log (remove_allowlist now id s).0
unfolding remove_allowlist disable_allowlist
remove_allowlist-Sound now id {s = s} h = elim (Bool-cases (disable_allowlist id now s).1) [
  | inl done ↦ rw (remove_allowlist, done) (allowlists-Sound _ s.next_allowlist h)
  | inr missing ↦ rw (remove_allowlist, missing) (allowlists-Sound _ s.next_allowlist h)
]

-- what came of the allowlist's part of an approval differs in the allowlists alone
OnlyAllowlists : Store → Error ⊎ (Store × ℕ) → Type 0
OnlyAllowlists s (inl e) = Unit
OnlyAllowlists s (inr (s', _)) =
    (rows : List (ℕ × Allowlist)) × (n : ℕ) × (s'
      ≡ record s { allowlists = rows; next_allowlist = n })

allowlist_artifact-OnlyAllowlists :
    (always_allow : Bool) (build : Request → Error ⊎ Allowlist) (req : Request) (s : Store)
    → OnlyAllowlists s (allowlist_artifact always_allow build req s)
unfolding allowlist_artifact OnlyAllowlists
allowlist_artifact-OnlyAllowlists false build req s = (s.allowlists, s.next_allowlist, refl)
allowlist_artifact-OnlyAllowlists true build req s = of_build (build req)
  where
    of_build :
        (r : Error ⊎ Allowlist)
        → OnlyAllowlists s (elim r [
          | inl e ↦ inl e
          | inr row ↦
              if is_blank row.domain
              then inr (s, 0)
              else (let (s', (allowlist_id, _)) = create_or_get_allowlist row s in
                  inr (s', allowlist_id))
        ])
    of_build (inl e) = tt
    of_build (inr row) = elim (Bool-cases (is_blank row.domain)) [
      | inl blank ↦ rw blank (s.allowlists, s.next_allowlist, refl)
      | inr named ↦ rw named (create_or_get_allowlist-cases row s)
    ]

-- a request that was found pending is approved once it was resolved so
issue_or_fail-Sound :
    (id : ℕ) (actor : String) (now expires : ℕ) (req r : Request) {log : List ℕ} (s s₁ : Store)
    (result : Error ⊎ (Store × ℕ))
    → Sound log s
    → Sound log s₁
    → find id s₁.requests ≡ some r
    → r.status ≡ approved
    → r.subject_hash ≡ req.subject_hash
    → OnlyAllowlists s₁ result
    → Sound log (issue_or_fail id actor now expires req s result).0
unfolding OnlyAllowlists issue_or_fail
issue_or_fail-Sound id actor now expires req r s s₁ (inl e) h h₁ found is same only = h
issue_or_fail-Sound id actor now expires req r {log} s s₁ (inr (s₂, n)) h h₁ found is same only =
    let (rows, next, e) = only in
    subst (λ s₂. Sound log (issue_token id actor now expires req n s₂).0) (sym e)
      (issue_token-Sound id actor now expires req r n found is same (allowlists-Sound rows next h₁))

find-resolve_request :
    (id : ℕ) (st : Status) (now : ℕ) (actor kind note : String) (req : Request) (s : Store)
    → find id s.requests ≡ some req
    → is_pending req.status ≡ true
    → find id (resolve_request id st now actor kind note s).0.requests
      ≡ some (resolve_row st now actor kind note req)
unfolding resolve_request pending_row
find-resolve_request id st now actor kind note req s found waits =
    find-update (pending_row id) (resolve_row st now actor kind note) id s.requests req found
    ∙ ground (arith, waits)

approve_row-Sound :
    (id : ℕ) (actor : String) (always_allow : Bool) (kind note : String) (now expires : ℕ)
    (build : Request → Error ⊎ Allowlist) (req : Request) {log : List ℕ} {s : Store}
    → find id s.requests ≡ some req
    → Sound log s
    → Sound log (approve_row id actor always_allow kind note now expires build req s).0
unfolding approve_row resolve_row
approve_row-Sound id actor always_allow kind note now expires build req {log} {s = s} found h =
    let r = resolve_request id approved now (trim_space actor) kind (trim_space note) s in
    let late = ltb 0 req.expires_at && ltb req.expires_at now in
    elim (Bool-cases (is_pending req.status)) [
      | inr settled ↦ rw (approve_row, settled) h
      | inl waits ↦ elim (Bool-cases late) [
        | inl late ↦ rw (approve_row, waits, late) h
        | inr timely ↦ elim (Bool-cases r.1) [
          | inr lost ↦ rw (approve_row, waits, timely, lost) h
          | inl resolved ↦
              rw (approve_row, waits, timely, resolved)
                (issue_or_fail-Sound id actor now expires req
                  (resolve_row approved now (trim_space actor) kind (trim_space note) req) s r.0
                  (allowlist_artifact always_allow build req r.0) h
                  (resolve_request-Sound id approved now (trim_space actor) kind (trim_space note)
                    h)
                  (find-resolve_request id approved now (trim_space actor) kind (trim_space note)
                    req s found waits)
                  refl refl (allowlist_artifact-OnlyAllowlists always_allow build req r.0))
        ]
      ]
    ]

sign_issued_store :
    (c : Codec) (b : Broker) (id : ℕ) (r : Store × (Error ⊎ Artifacts))
    → (sign_issued c b id r).0 ≡ r.0
unfolding sign_issued
sign_issued_store c b id (s, inl e) = refl
sign_issued_store c b id (s, inr out) = refl

approve_with_artifacts-Sound :
    (id : ℕ) (actor : String) (always_allow : Bool) (kind note : String) (now expires : ℕ)
    (build : Request → Error ⊎ Allowlist) {log : List ℕ} {s : Store}
    → Sound log s
    → Sound log (approve_with_artifacts id actor always_allow kind note now expires build s).0
unfolding approve_with_artifacts
approve_with_artifacts-Sound id actor always_allow kind note now expires build {s = s} h =
    elim (Option-cases (find id s.requests)) [
      | inl missing ↦ rw (approve_with_artifacts, missing) h
      | inr (req, found) ↦
          rw (approve_with_artifacts, found)
            (approve_row-Sound id actor always_allow kind note now expires build req found h)
    ]

pub approve_request-Sound :
    (c : Codec) (b : Broker) (now later id : ℕ) (actor : String) (always_allow : Bool)
    (note : String) {log : List ℕ} {s : Store}
    → Sound log s
    → Sound log (approve_request c b now later id actor always_allow note s).0
unfolding approve_request
approve_request-Sound c b now later id actor always_allow note {log} {s = s} h =
    let expires = now + b.approval_token_ttl_seconds * 1000 in
    let r =
      approve_with_artifacts id actor always_allow (resolution_kind always_allow) note now expires
        (allowlist_from_request c later actor) s in
    let h' : Sound log (sign_issued c b id r).0 =
      subst (Sound log) (sym (sign_issued_store c b id r)) (
        approve_with_artifacts-Sound id actor always_allow (resolution_kind always_allow) note now
          expires (allowlist_from_request c later actor) h) in
    go b.has_db (str_eq b.sign_key "") (sign_issued c b id r) broker_unavailable
      signing_key_unavailable h'
  where
    go :
        (here unsigned : Bool) (r : Store × (Error ⊎ (Artifacts × String))) (x y : Error)
        → Sound log r.0
        → Sound log (if not here then (s, inl x) else if unsigned then (s, inl y) else r).0
    go false unsigned r x y h' = h
    go true true r x y h' = h
    go true false r x y h' = h'
