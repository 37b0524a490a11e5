-- ===== src/Approval/Tokens.antt =====
-- internal/approval/tokens.go and broker.go: approval tokens. A token is the claims and their HMAC,
-- encoded, with a dot between.
pub mod Signed
use Prim.Native.String.{String, ◌++◌ as append}
use Prim.Native.Char.{code}
use or3_intern.Base.{
  ℕ, ◌/◌, ◌==◌, str_eq, not, ◌&&◌, ◌||◌, Option, none, some, ◌⊎◌, inl, inr, ltb, if◌then◌else◌,
  ◌>>=◌,
}
use or3_intern.Base.Text.{trim_space, is_blank}
use or3_intern.Base.Table.{find}
use or3_intern.Approval.Types.{
  Codec, Broker, Claims, Request, Token, Store, Error, token_format, token_signature, token_payload,
  token_expired, token_host_mismatch, token_subject_mismatch, token_store_unavailable,
  token_not_found, token_used,
}
use or3_intern.Approval.Store.{consume_token}

-- strings.Cut(s, "."), where it finds the dot
unfoldable pub cut_dot : String → Option (String × String)
cut_dot String.[] = none
cut_dot (String.◌∷◌ c s) =
    let rest = cut_dot s in
    if code c == 46 then some ("", s) else do (a, b) ← rest; some (String.◌∷◌ c a, b)

-- `Broker.hostID`
unfoldable pub host_id : Broker → String
host_id b = if is_blank b.host_id then trim_space b.config_host_id else trim_space b.host_id

unfoldable pub token_claims : ℕ → Request → ℕ → Token → Claims
token_claims request_id req token_id t = record {
  token_id = token_id;
  request_id = request_id;
  subject_hash = req.subject_hash;
  execution_host = req.execution_host_id;
  issued_at = t.issued_at / 1000;
  expires_at = t.expires_at / 1000;
}

module _ (c : Codec) (b : Broker) where
  -- `signToken`, in hexadecimal
  unfoldable pub signature_of : String → String
  signature_of payload = c.hex_encode (c.hmac b.sign_key payload)

  unfoldable pub sign_claims : Claims → String
  unfolding signature_of
  sign_claims claims =
      let payload = c.base64_encode (c.claims_json claims) in
      append payload (append "." (signature_of payload))

  -- `signTokenFromRecord`
  unfoldable pub sign_token_from_record : ℕ → Request → ℕ → Token → String
  unfolding sign_claims token_claims
  sign_token_from_record request_id req token_id t =
      sign_claims (token_claims request_id req token_id t)

  -- the claims of a payload whose signature is right
  unfoldable pub parse_payload : String → Error ⊎ Claims
  parse_payload payload = elim (c.base64_decode payload) [
    | none ↦ inl token_payload
    | some json ↦ elim (c.read_claims json) [ none ↦ inl token_payload | some claims ↦ inr claims ]
  ]

  -- the two parts, once they are cut
  unfoldable pub parse_parts : String → String → Error ⊎ Claims
  parse_parts payload signature =
      if str_eq payload "" || str_eq signature ""
      then inl token_format
      else elim (c.hex_decode signature) [
        | none ↦ inl token_signature
        | some bytes ↦
            if not (str_eq bytes (c.hmac b.sign_key payload))
            then inl token_signature
            else parse_payload payload
      ]

  unfoldable pub parse_approval_token : String → Error ⊎ Claims
  unfolding parse_parts
  parse_approval_token token = elim (cut_dot (trim_space token)) [
    | none ↦ inl token_format
    | some (payload, signature) ↦ parse_parts payload signature
  ]

  -- the checks of the claims, up to the look into the store
  unfoldable pub refuse_claims : ℕ → String → String → Claims → Option Error
  refuse_claims now subject_hash host claims =
      if ltb claims.expires_at (now / 1000)
      then some token_expired
      else if not (str_eq claims.execution_host (trim_space host))
      then some token_host_mismatch
      else if not (str_eq claims.subject_hash (trim_space subject_hash))
      then some token_subject_mismatch
      else if not b.has_db
      then some token_store_unavailable
      else none

  -- the checks of the row
  unfoldable pub refuse_token : ℕ → Claims → Token → Option Error
  refuse_token later claims t =
      if ltb 0 t.revoked_at
      then some token_used
      else if not (str_eq t.subject_hash claims.subject_hash)
      then some token_subject_mismatch
      else if ltb 0 t.expires_at && ltb t.expires_at later
      then some token_expired
      else none

  unfoldable pub consume_claims : ℕ → Claims → Store → Store × (Error ⊎ Claims)
  consume_claims later claims s =
      let (s', consumed) = consume_token claims.token_id later s in
      if consumed then (s', inr claims) else (s', inl token_used)

  -- the part of `VerifyApprovalTokenClaims` that needs the store
  unfoldable pub verify_claims : ℕ → ℕ → String → String → Claims → Store → Store × (Error ⊎ Claims)
  unfolding consume_claims
  verify_claims now later subject_hash host claims s =
      elim (refuse_claims now subject_hash host claims) [
        | some e ↦ (s, inl e)
        | none ↦ elim (find claims.token_id s.tokens) [
          | none ↦ (s, inl token_not_found)
          | some t ↦ elim (refuse_token later claims t) [
            | some e ↦ (s, inl e)
            | none ↦ consume_claims later claims s
          ]
        ]
      ]

  -- `VerifyApprovalTokenClaims`, given the two times that it reads
  unfoldable pub verify_approval_token :
      ℕ → ℕ → String → String → String → Store → Store × (Error ⊎ Claims)
  unfolding parse_approval_token verify_claims
  verify_approval_token now later token subject_hash host s = elim (parse_approval_token token) [
    | inl e ↦ (s, inl e)
    | inr claims ↦ verify_claims now later subject_hash host claims s
  ]
