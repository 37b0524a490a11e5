-- ===== src/Approval/Tokens/Signed.antt =====
-- A token that was signed reads back as its claims.
use Prim.Native.String.{String, ◌++◌ as append}
use Prim.Native.Char.{code}
use text.Mathlib.TextLemmas.{nil-append, cons-append}
use or3_intern.Base.{
  ◌≡◌, refl, ap, ◌∙◌, ◌≢◌, ◌==◌, str_eq, eq_iff, eq_refl, Bool, true, false, not, ◌||◌, some, inl,
  inr, arith, Bool-cases,
}
use or3_intern.Base.Text.{spaceless, all_chars, trim_space-spaceless, spaceless-append}
use or3_intern.Approval.Types.{Codec, Broker, Claims}
use or3_intern.Approval.Tokens.{
  cut_dot, signature_of, sign_claims, parse_payload, parse_parts, parse_approval_token,
}

abbrev pub dotless : String → Bool
dotless = all_chars (λ c. not (c == 46))

abbrev pub payload_of : Codec → Claims → String
payload_of c k = c.base64_encode (c.claims_json k)

-- What Go documents of the encodings, for one token: each decodes what it encodes, and the alphabets of
-- hexadecimal and of base64 for URLs have no white space and no dot. Neither part is empty.
pub record IsFaithful (c : Codec) (b : Broker) (k : Claims) : Type 0 where
  pub claims_back : c.read_claims (c.claims_json k) ≡ some k
  pub base64_back : c.base64_decode (payload_of c k) ≡ some (c.claims_json k)
  pub base64_spaceless : spaceless (payload_of c k) ≡ true
  pub base64_dotless : dotless (payload_of c k) ≡ true
  pub some_payload : payload_of c k ≢ ""
  pub hex_back :
      c.hex_decode (signature_of c b (payload_of c k)) ≡ some (c.hmac b.sign_key (payload_of c k))
  pub hex_spaceless : spaceless (signature_of c b (payload_of c k)) ≡ true
  pub some_signature : signature_of c b (payload_of c k) ≢ ""

dot-append : (s : String) → append "." s ≡ String.◌∷◌ "." s
dot-append s = cons-append "." "" s ∙ ap (λ t. String.◌∷◌ "." t) (nil-append s)

cut_dot-append : (p s : String) → dotless p ≡ true → cut_dot (append p (append "." s)) ≡ some (p, s)
unfolding cut_dot all_chars
cut_dot-append String.[] s h = rw (nil-append (append "." s), dot-append s) refl
cut_dot-append (String.◌∷◌ c p) s h = elim (Bool-cases (code c == 46)) [
  | inl dot ↦ absurd (cc (rw dot at h))
  | inr other ↦ rw (cons-append c p (append "." s), other, cut_dot-append p s (rw other at h)) refl
]

dot_spaceless : spaceless "." ≡ true
unfolding spaceless all_chars
dot_spaceless = refl

parse_parts-signed :
    (c : Codec) (b : Broker) (k : Claims)
    → IsFaithful c b k
    → parse_parts c b (payload_of c k) (signature_of c b (payload_of c k)) ≡ inr k
unfolding parse_parts parse_payload
parse_parts-signed c b k h =
    let payload = payload_of c k in
    let signature = signature_of c b payload in
    let not_empty : (str_eq payload "" || str_eq signature "") ≡ false =
      ground (arith, eq_iff payload "", eq_iff signature "", h.some_payload, h.some_signature) in
    rw
      (
        parse_parts,
        parse_payload,
        not_empty,
        h.hex_back,
        eq_refl (c.hmac b.sign_key payload),
        h.base64_back,
        h.claims_back,
      )
      refl

-- A token that the broker signs parses back to the claims it was signed for, where the encodings decode what
-- they encoded for it into parts that are not empty and have no white space, the first of them no dot.
pub parse_approval_token-sign_claims :
    (c : Codec) (b : Broker) (k : Claims)
    → IsFaithful c b k
    → parse_approval_token c b (sign_claims c b k) ≡ inr k
unfolding parse_approval_token sign_claims
parse_approval_token-sign_claims c b k h =
    let payload = payload_of c k in
    let signature = signature_of c b payload in
    let clean : spaceless (sign_claims c b k) ≡ true =
      spaceless-append payload (append "." signature) h.base64_spaceless
        (spaceless-append "." signature dot_spaceless h.hex_spaceless) in
    rw
      (
        parse_approval_token,
        trim_space-spaceless (sign_claims c b k) clean,
        cut_dot-append payload signature h.base64_dotless,
      )
      (parse_parts-signed c b k h)
