-- ===== src/Approval/Machine/Verify.antt =====
-- What the acceptance of a token rests on.
use mathlib.Core.Path.{subst}
use mathlib.Core.Sum.{inr-injective}
use or3_intern.Base.{
  ℕ, ◌/◌, ◌≤◌, ◌≡◌, ap, ◌∙◌, String, str_eq, ◌||◌, eq_iff, true, none, some, inl, inr, List, arith,
  Bool-cases, Option-cases, Sum-cases,
}
use or3_intern.Base.Text.{trim_space}
use or3_intern.Base.Table.{find}
use or3_intern.Approval.Types.{Codec, Broker, Claims, Request, Token, Store, approved}
use or3_intern.Approval.Store.{consume_token}
use or3_intern.Approval.Tokens.{
  cut_dot, parse_payload, parse_parts, parse_approval_token, refuse_claims, refuse_token,
  consume_claims, verify_claims, verify_approval_token,
}
use or3_intern.Approval.Machine.{Run}
use or3_intern.Approval.Machine.Once.{Run-Sound}

-- The token is the encoded claims and, after a dot, the HMAC of this encoding under the broker's key.
pub record IsSigned (c : Codec) (b : Broker) (token : String) (claims : Claims) : Type 0 where
  pub payload : String
  pub signature : String
  pub json : String
  pub cut : cut_dot (trim_space token) ≡ some (payload, signature)
  pub signature_is : c.hex_decode signature ≡ some (c.hmac b.sign_key payload)
  pub payload_is : c.base64_decode payload ≡ some json
  pub json_is : c.read_claims json ≡ some claims

module _ (c : Codec) (b : Broker) (claims : Claims) where
  payload-IsSigned :
      (token payload signature : String)
      → cut_dot (trim_space token) ≡ some (payload, signature)
      → c.hex_decode signature ≡ some (c.hmac b.sign_key payload)
      → parse_payload c b payload ≡ inr claims
      → IsSigned c b token claims
  unfolding parse_payload
  payload-IsSigned token payload signature cut hex e =
      elim (Option-cases (c.base64_decode payload)) [
        | inl garbled ↦ absurd (cc (rw (garbled, parse_payload) at e))
        | inr (json, payload_is) ↦ elim (Option-cases (c.read_claims json)) [
          | inl other ↦ absurd (cc (rw (payload_is, other, parse_payload) at e))
          | inr (k, json_is) ↦
              let same : k ≡ claims =
                inr-injective k claims (rw (payload_is, json_is, parse_payload) at e) in
              record {
                payload = payload;
                signature = signature;
                json = json;
                cut = cut;
                signature_is = hex;
                payload_is = payload_is;
                json_is = json_is ∙ ap some same;
              }
        ]
      ]

  parts-IsSigned :
      (token payload signature : String)
      → cut_dot (trim_space token) ≡ some (payload, signature)
      → parse_parts c b payload signature ≡ inr claims
      → IsSigned c b token claims
  unfolding parse_parts
  parts-IsSigned token payload signature cut e =
      elim (Bool-cases (str_eq payload "" || str_eq signature "")) [
        | inl empty ↦ absurd (cc (rw (empty, parse_parts) at e))
        | inr filled ↦ elim (Option-cases (c.hex_decode signature)) [
          | inl no_hex ↦ absurd (cc (rw (filled, no_hex, parse_parts) at e))
          | inr (bytes, hex) ↦ elim (Bool-cases (str_eq bytes (c.hmac b.sign_key payload))) [
            | inr forged ↦ absurd (cc (rw (filled, hex, forged, parse_parts) at e))
            | inl genuine ↦
                payload-IsSigned token payload signature cut
                  (hex ∙ ap some ((eq_iff bytes (c.hmac b.sign_key payload)).0 genuine))
                  (rw (filled, hex, genuine, parse_parts) at e)
          ]
        ]
      ]

  parse-IsSigned :
      (token : String) → parse_approval_token c b token ≡ inr claims → IsSigned c b token claims
  unfolding parse_approval_token
  parse-IsSigned token e = elim (Option-cases (cut_dot (trim_space token))) [
    | inl no_dot ↦ absurd (cc (rw (no_dot, parse_approval_token) at e))
    | inr ((payload, signature), cut) ↦
        parts-IsSigned token payload signature cut (rw (cut, parse_approval_token) at e)
  ]

module _ (c : Codec) (b : Broker) (now later : ℕ) (token hash host : String) (s : Store)
    (claims : Claims) where
  -- the reasons for which a token was accepted
  pub record Accepted : Type 0 where
    pub parsed : parse_approval_token c b token ≡ inr claims
    pub signed : IsSigned c b token claims
    pub fresh : now / 1000 ≤ claims.expires_at
    pub for_subject : claims.subject_hash ≡ trim_space hash
    pub for_host : claims.execution_host ≡ trim_space host
    pub row : Token
    pub found : find claims.token_id s.tokens ≡ some row
    pub unused : row.revoked_at ≡ 0
    pub same_hash : row.subject_hash ≡ claims.subject_hash
    pub consumed : (consume_token claims.token_id later s).1 ≡ true

  refuse_claims-none :
      refuse_claims c b now hash host claims ≡ none
      → (now / 1000 ≤ claims.expires_at)
        × (claims.subject_hash ≡ trim_space hash)
        × (claims.execution_host ≡ trim_space host)
  unfolding refuse_claims
  refuse_claims-none e =
      let by_hash = eq_iff claims.subject_hash (trim_space hash) in
      let by_host = eq_iff claims.execution_host (trim_space host) in
      (ground arith, ground (arith, by_hash), ground (arith, by_host))

  refuse_token-none :
      (t : Token)
      → refuse_token c b later claims t ≡ none
      → (t.revoked_at ≡ 0) × (t.subject_hash ≡ claims.subject_hash)
  unfolding refuse_token
  refuse_token-none t e = (ground arith, ground (arith, eq_iff t.subject_hash claims.subject_hash))

  consume_claims-consumed :
      (k : Claims)
      → (consume_claims c b later k s).1 ≡ inr claims
      → (k ≡ claims) × ((consume_token k.token_id later s).1 ≡ true)
  unfolding consume_claims
  consume_claims-consumed k e = elim (Bool-cases (consume_token k.token_id later s).1) [
    | inl consumed ↦ (inr-injective k claims (rw (consume_claims, consumed) at e), consumed)
    | inr kept ↦ absurd (cc (rw (consume_claims, kept) at e))
  ]

  -- the store's part of a verification that accepts
  verify_claims-found :
      (k : Claims)
      → (verify_claims c b now later hash host k s).1 ≡ inr claims
      → (refuse_claims c b now hash host k ≡ none)
        × (k ≡ claims)
        × ((consume_token k.token_id later s).1 ≡ true)
        × ((t : Token) × (find k.token_id s.tokens ≡ some t) × (refuse_token c b later k t ≡ none))
  unfolding verify_claims
  verify_claims-found k e = elim (Option-cases (refuse_claims c b now hash host k)) [
    | inr (x, bad) ↦ absurd (cc (rw (verify_claims, bad) at e))
    | inl good ↦ elim (Option-cases (find k.token_id s.tokens)) [
      | inl missing ↦ absurd (cc (rw (verify_claims, good, missing) at e))
      | inr (t, found) ↦ elim (Option-cases (refuse_token c b later k t)) [
        | inr (x, bad) ↦ absurd (cc (rw (verify_claims, good, found, bad) at e))
        | inl unused ↦
            let (same, consumed) =
              consume_claims-consumed k (rw (verify_claims, good, found, unused) at e) in
            (good, same, consumed, (t, found, unused))
      ]
    ]
  ]

  pub verify-Accepted :
      (verify_approval_token c b now later token hash host s).1 ≡ inr claims → Accepted
  unfolding verify_approval_token
  verify-Accepted e = elim (Sum-cases (parse_approval_token c b token)) [
    | inl (x, bad) ↦ absurd (cc (rw (verify_approval_token, bad) at e))
    | inr (k, parsed) ↦
        let (good, same, consumed, (t, found, unused)) =
          verify_claims-found k (rw (verify_approval_token, parsed) at e) in
        let (fresh, for_subject, for_host) =
          refuse_claims-none (subst (λ k. refuse_claims c b now hash host k ≡ none) same good) in
        let (not_used, same_hash) =
          refuse_token-none t (subst (λ k. refuse_token c b later k t ≡ none) same unused) in
        record {
          parsed = parsed ∙ ap inr same;
          signed = parse-IsSigned c b claims token (parsed ∙ ap inr same);
          fresh = fresh;
          for_subject = for_subject;
          for_host = for_host;
          row = t;
          found = subst (λ (k : Claims). find k.token_id s.tokens ≡ some t) same found;
          unused = not_used;
          same_hash = same_hash;
          consumed =
              subst (λ (k : Claims). (consume_token k.token_id later s).1 ≡ true) same consumed;
        }
  ]

-- A token is accepted only if an operator approved a request for the same subject: in every store that
-- a run of statements leaves, a verification that returns claims has checked the signature, the
-- claims' subject hash, host and expiry, has consumed the token's row, which was unused, and that
-- row was issued for a request whose status is `approved` and whose subject hash is the one asked for.
-- The signature is right where its hexadecimal text decodes to the HMAC of the encoded claims under the
-- broker's key.
pub verify-approved :
    {c : Codec} {log : List ℕ} (b : Broker) (now later : ℕ) (token hash host : String) {s : Store}
    (claims : Claims)
    → Run c log s
    → (verify_approval_token c b now later token hash host s).1 ≡ inr claims
    → (a : Accepted c b now later token hash host s claims) × (r : Request) × (find
          a.row.approval_request_id s.requests
        ≡ some r)
      × (r.status ≡ approved)
      × (r.subject_hash ≡ trim_space hash)
verify-approved {c} b now later token hash host {s = s} claims run e =
    let a = verify-Accepted c b now later token hash host s claims e in
    let k = (Run-Sound run).backed claims.token_id a.row a.found in
    (a, k.request, k.found, k.is_approved, k.same_hash ∙ a.same_hash ∙ a.for_subject)
