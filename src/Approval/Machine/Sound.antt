-- ===== src/Approval/Machine/Sound.antt =====
-- The invariant of the approval store, and the statements that keep it.
use mathlib.Core.Path.{subst}
use mathlib.Core.Option.{some-injective}
use or3_intern.Base.{
  ℕ, ◌+◌, ◌<◌, ◌≡◌, ◌∙◌, ◌==◌, ==_iff, String, Bool, some, inl, inr, List, ◌∷◌, All, All-map,
  Distinct, arith, Bool-cases, if◌then◌else◌,
}
use or3_intern.Base.Text.{trim_space}
use or3_intern.Base.Table.{find, update, ids, find-insert_other, find-update, find-update_inv}
use or3_intern.Approval.Types.{Request, Token, Allowlist, Store, approved}
use or3_intern.Approval.Store.{issue_token}

-- the request that a token was issued for was approved, for the same subject
pub record Backed (requests : List (ℕ × Request)) (t : Token) : Type 0 where
  pub request : Request
  pub found : find t.approval_request_id requests ≡ some request
  pub is_approved : request.status ≡ approved
  pub same_hash : request.subject_hash ≡ t.subject_hash

pub record Spent (tokens : List (ℕ × Token)) (id : ℕ) : Type 0 where
  pub token : Token
  pub found : find id tokens ≡ some token
  pub revoked : 0 < token.revoked_at

-- every row's number is below the next one
abbrev pub Below {ℓ} : {V : Type ℓ} → ℕ → List (ℕ × V) → Type ℓ
Below {V = V} n t = (j : ℕ) (v : V) → find j t ≡ some v → j < n

pub record Sound (log : List ℕ) (s : Store) : Type 0 where
  pub requests_below : Below s.next_request s.requests
  pub tokens_below : Below s.next_token s.tokens
  pub token_ids : Distinct (ids s.tokens)
  pub token_ids_below : All (λ j. j < s.next_token) (ids s.tokens)
  pub backed : (j : ℕ) (t : Token) → find j s.tokens ≡ some t → Backed s.requests t
  pub spent : All (Spent s.tokens) log
  pub distinct : Distinct log

pub Below-insert {ℓ} :
    {V : Type ℓ} (n : ℕ) (v : V) (t : List (ℕ × V)) → Below n t → Below (n + 1) ((n, v) ∷ t)
Below-insert n v t h j w e = elim (Bool-cases (n == j)) [
  | inl same ↦ ground (arith, ==_iff n j)
  | inr differs ↦ omega (arith, h j w (unfold find in ground arith))
]

pub Below-update {ℓ} :
    {V : Type ℓ} (c : ℕ → V → Bool) (f : V → V) (n : ℕ) (t : List (ℕ × V))
    → Below n t
    → Below n (update c f t)
Below-update c f n t h j w e = let (v, found, _) = find-update_inv c f j t w e in h j v found

-- what an update must leave of an approved request
abbrev pub KeepsApproved : (ℕ → Request → Bool) → (Request → Request) → Type 0
KeepsApproved c f =
    (j : ℕ) (r : Request)
    → r.status ≡ approved
    → ((if c j r then f r else r).status ≡ approved)
      × ((if c j r then f r else r).subject_hash ≡ r.subject_hash)

Backed-update :
    (c : ℕ → Request → Bool) (f : Request → Request)
    → KeepsApproved c f
    → (requests : List (ℕ × Request)) (t : Token) → Backed requests t
    → Backed (update c f requests) t
Backed-update c f keeps requests t b =
    let (still, same) = keeps t.approval_request_id b.request b.is_approved in
    record {
      request = if c t.approval_request_id b.request then f b.request else b.request;
      found = find-update c f t.approval_request_id requests b.request b.found;
      is_approved = still;
      same_hash = same ∙ b.same_hash;
    }

pub update-Sound :
    (c : ℕ → Request → Bool) (f : Request → Request)
    → KeepsApproved c f
    → {log : List ℕ} {s : Store} → Sound log s
    → Sound log (record s { requests = update c f s.requests })
update-Sound c f keeps {s = s} h = record {
  requests_below = Below-update c f s.next_request s.requests h.requests_below;
  tokens_below = h.tokens_below;
  token_ids = h.token_ids;
  token_ids_below = h.token_ids_below;
  backed = λ j t e. Backed-update c f keeps s.requests t (h.backed j t e);
  spent = h.spent;
  distinct = h.distinct;
}

pub insert-Sound :
    (input : Request) {log : List ℕ} {s : Store}
    → Sound log s
    → Sound log (record s {
      requests = (s.next_request, input) ∷ s.requests;
      next_request = s.next_request + 1;
    })
insert-Sound input {s = s} h = record {
  requests_below = Below-insert s.next_request input s.requests h.requests_below;
  tokens_below = h.tokens_below;
  token_ids = h.token_ids;
  token_ids_below = h.token_ids_below;
  backed = λ j t e.
      let b = h.backed j t e in
      record {
        request = b.request;
        found =
            find-insert_other s.next_request t.approval_request_id input s.requests
              (h.requests_below _ _ b.found)
            ∙ b.found;
        is_approved = b.is_approved;
        same_hash = b.same_hash;
      };
  spent = h.spent;
  distinct = h.distinct;
}

pub allowlists-Sound :
    (rows : List (ℕ × Allowlist)) (n : ℕ) {log : List ℕ} {s : Store}
    → Sound log s
    → Sound log (record s { allowlists = rows; next_allowlist = n })
allowlists-Sound rows n h = record {
  requests_below = h.requests_below;
  tokens_below = h.tokens_below;
  token_ids = h.token_ids;
  token_ids_below = h.token_ids_below;
  backed = h.backed;
  spent = h.spent;
  distinct = h.distinct;
}

pub issue_token-Sound :
    (id : ℕ) (actor : String) (now expires : ℕ) (req r : Request) (allowlist_id : ℕ) {log : List ℕ}
    {s : Store}
    → find id s.requests ≡ some r
    → r.status ≡ approved
    → r.subject_hash ≡ req.subject_hash
    → Sound log s
    → Sound log (issue_token id actor now expires req allowlist_id s).0
unfolding issue_token
issue_token-Sound id actor now expires req r allowlist_id {s = s} found is same h =
    let t : Token = record {
      approval_request_id = id;
      subject_hash = req.subject_hash;
      issued_at = now;
      expires_at = expires;
      issuer = trim_space actor;
      revoked_at = 0;
    } in
    record {
      requests_below = h.requests_below;
      tokens_below = Below-insert s.next_token t s.tokens h.tokens_below;
      token_ids = (
        All-map (λ j. j < s.next_token) (λ j below. λ e. omega (arith, e, below)) _
            h.token_ids_below,
        h.token_ids,
      );
      token_ids_below = (
        omega arith,
        All-map (λ j. j < s.next_token) (λ j below. omega (arith, below)) _ h.token_ids_below,
      );
      backed = λ j u e. elim (Bool-cases (s.next_token == j)) [
        | inl new ↦
            subst (Backed s.requests) (some-injective t u (unfold find in ground arith))
              (record { request = r; found = found; is_approved = is; same_hash = same })
        | inr old ↦ h.backed j u (unfold find in ground arith)
      ];
      spent =
          All-map (Spent s.tokens)
            (λ j p. record {
              token = p.token;
              found =
                  find-insert_other s.next_token j t s.tokens (h.tokens_below j p.token p.found)
                  ∙ p.found;
              revoked = p.revoked;
            })
            _ h.spent;
      distinct = h.distinct;
    }
