-- ===== src/Approval/Evaluate/Granted.antt =====
-- What an action may run on.
use mathlib.Core.Option.{some-injective}
use mathlib.Core.Sum.{inr-injective}
use or3_intern.Base.{
  ℕ, ◌≡◌, refl, sym, ap, ◌∙◌, ◌≢◌, String, str_eq, eq_iff, Bool, true, false, not, ◌||◌, Option,
  none, some, ◌⊎◌, inl, inr, Bool-cases, Option-cases, Sum-cases, if◌then◌else◌,
}
use or3_intern.Base.Text.{is_blank}
use or3_intern.Approval.Types.{
  Codec, Broker, Scope, Matcher, Subject, Mode, deny, ask, allowlist, trusted, Moderator, Request,
  Store, Decision, Claims, Error,
}
use or3_intern.Approval.Store.{create_or_get_pending}
use or3_intern.Approval.Tokens.{host_id, verify_approval_token}
use or3_intern.Approval.Allowlist.{allowlist_matches}
use or3_intern.Approval.Evaluate.{
  Clock, SubjectHash, subject_kind, refused, canonical_subject_hash, check_existing_token,
  check_broker, check_policy_mode, check_allowlist, new_request, decide_requested, require_approval,
  note_moderator, apply_autopilot, decide_by_request, evaluate_with_mode,
}

decide_requested-refused :
    (hash : String) (r : Store × (Error ⊎ ((ℕ × Request) × Bool))) (d : Decision)
    → (decide_requested hash r).1 ≡ inr d
    → d.allowed ≡ false
unfolding decide_requested
decide_requested-refused hash (s, inl x) d e = absurd (cc)
decide_requested-refused hash (s, inr ((id, row), reused)) d e =
    sym (ap (λ (d : Decision). d.allowed) (inr-injective _ d e))

module _ (c : Codec) (b : Broker) where
  require_approval-refused :
      (clock : Clock) (context : String) (subject : Subject) (sh : SubjectHash) (scope : Scope)
      (mode : Mode) (s : Store) (d : Decision)
      → (require_approval c b clock context subject sh scope mode s).1 ≡ inr d
      → d.allowed ≡ false
  unfolding require_approval
  require_approval-refused clock context subject sh scope mode s d e =
      decide_requested-refused sh.hash
        (create_or_get_pending (new_request c b clock context subject sh scope mode) clock.create_at
          s)
        d e

  note_moderator-refused :
      (clock : Clock) (moderator : Moderator) (r : Store × (Error ⊎ Decision)) (d : Decision)
      → ((x : Decision) → r.1 ≡ inr x → x.allowed ≡ false)
      → (note_moderator c b clock moderator r).1 ≡ inr (some d)
      → d.allowed ≡ false
  unfolding note_moderator
  note_moderator-refused clock moderator (s, inl x) d h e = absurd (cc)
  note_moderator-refused clock moderator (s, inr x) d h e =
      sym (ap (λ (d : Decision). d.allowed) (some-injective _ d (inr-injective _ _ e))) ∙ h x refl

  check_broker-refused :
      (hash : String) (d : Decision) → check_broker c b hash ≡ some d → d.allowed ≡ false
  unfolding check_broker refused
  check_broker-refused hash d e = elim (Bool-cases (not b.has_db || str_eq b.sign_key "")) [
    | inl gone ↦
        sym (ap (λ (d : Decision). d.allowed) (some-injective _ d (rw (check_broker, gone) at e)))
    | inr there ↦ absurd (cc (rw (check_broker, there) at e))
  ]

  check_policy_mode-allowed :
      (hash : String) (mode : Mode) (d : Decision)
      → check_policy_mode c b hash mode ≡ some d
      → d.allowed ≡ true
      → mode ≡ trusted
  unfolding check_policy_mode refused
  check_policy_mode-allowed hash trusted d e h = refl
  check_policy_mode-allowed hash deny d e h =
      absurd (cc (ap (λ (d : Decision). d.allowed) (some-injective _ d e), h))
  check_policy_mode-allowed hash ask d e h = absurd (cc (check_broker-refused hash d e, h))
  check_policy_mode-allowed hash allowlist d e h = absurd (cc (check_broker-refused hash d e, h))

  -- no policy lets an action run in the mode `deny`
  check_policy_mode-deny :
      (hash : String) (mode : Mode) → check_policy_mode c b hash mode ≡ none → mode ≢ deny
  unfolding check_policy_mode
  check_policy_mode-deny hash trusted e = absurd (cc)
  check_policy_mode-deny hash deny e = absurd (cc)
  check_policy_mode-deny hash ask e = λ h. cc
  check_policy_mode-deny hash allowlist e = λ h. cc

  check_allowlist-matched :
      (clock : Clock) (subject : Subject) (scope : Scope) (matcher : Matcher) (hash : String)
      (mode : Mode) (s : Store) (d : Decision)
      → check_allowlist c b clock subject scope matcher hash mode s ≡ some d
      → (mode ≡ allowlist)
        × (allowlist_matches c clock.match_at (subject_kind subject) scope matcher s ≡ some true)
  unfolding check_allowlist
  check_allowlist-matched clock subject scope matcher hash allowlist s d e =
      let m = allowlist_matches c clock.match_at (subject_kind subject) scope matcher s in
      elim (Option-cases m) [
        | inl failed ↦ absurd (cc (rw (check_allowlist, failed) at e))
        | inr (matched, found) ↦ elim (Bool-cases matched) [
          | inl matches ↦ (refl, found ∙ ap some matches)
          | inr differs ↦ absurd (cc (rw (check_allowlist, found, differs) at e))
        ]
      ]
  check_allowlist-matched clock subject scope matcher hash deny s d e = absurd (cc)
  check_allowlist-matched clock subject scope matcher hash ask s d e = absurd (cc)
  check_allowlist-matched clock subject scope matcher hash trusted s d e = absurd (cc)

  check_existing_token-accepted :
      (clock : Clock) (token hash : String) (s : Store) (d : Decision)
      → (check_existing_token c b clock token hash s).1 ≡ some d
      → (claims : Claims) × ((verify_approval_token c b clock.token_at clock.consume_at token hash
            (host_id b)
            s).1
          ≡ inr claims)
  unfolding check_existing_token
  check_existing_token-accepted clock token hash s d e = elim (Bool-cases (is_blank token)) [
    | inl blank ↦ absurd (cc (rw (check_existing_token, blank) at e))
    | inr given ↦
        let v =
          verify_approval_token c b clock.token_at clock.consume_at token hash (host_id b) s in
        elim (Sum-cases v.1) [
          | inl (x, bad) ↦ absurd (cc (rw (check_existing_token, given, bad) at e))
          | inr (claims, accepted) ↦ (claims, accepted)
        ]
  ]

  apply_autopilot-approved :
      (clock : Clock) (context : String) (moderator : Moderator) (subject : Subject)
      (sh : SubjectHash) (scope : Scope) (mode : Mode) (s : Store) (d : Decision)
      → (apply_autopilot c b clock context moderator subject sh scope mode s).1 ≡ inr (some d)
      → d.allowed ≡ true
      → (moderator.reviewed ≡ true) × (moderator.action ≡ "approve_once")
  unfolding apply_autopilot
  apply_autopilot-approved clock context moderator subject sh scope mode s d e h =
      let once = str_eq moderator.action "approve_once" in
      let r = require_approval c b clock context subject sh scope mode s in
      elim (which moderator.reviewed once _ _ _ e) [
        | inl none_yet ↦ absurd (cc)
        | inr (inl (reviewed, approves)) ↦
            (reviewed, (eq_iff moderator.action "approve_once").0 approves)
        | inr (inr asked) ↦
            let no_grant =
              note_moderator-refused clock moderator r d
                (λ x e. require_approval-refused clock context subject sh scope mode s x e) asked in
            absurd (cc (no_grant, h))
      ]
    where
      which :
          (reviewed once : Bool) (x y z : Store × (Error ⊎ Option Decision))
          → (if not reviewed then x else if once then y else z).1 ≡ inr (some d)
          → (x.1 ≡ inr (some d)) ⊎ (((reviewed ≡ true) × (once ≡ true)) ⊎ (z.1 ≡ inr (some d)))
      which false once x y z e = inl e
      which true true x y z e = inr (inl (refl, refl))
      which true false x y z e = inr (inr e)

  decide_by_request-approved :
      (clock : Clock) (context : String) (moderator : Moderator) (subject : Subject)
      (sh : SubjectHash) (scope : Scope) (mode : Mode) (s : Store) (d : Decision)
      → (decide_by_request c b clock context moderator subject sh scope mode s).1 ≡ inr d
      → d.allowed ≡ true
      → (moderator.reviewed ≡ true) × (moderator.action ≡ "approve_once")
  unfolding decide_by_request
  decide_by_request-approved clock context moderator subject sh scope mode s d e h =
      let (s', _) = apply_autopilot c b clock context moderator subject sh scope mode s in
      let r = (apply_autopilot c b clock context moderator subject sh scope mode s).1 in
      elim (Sum-cases r) [
        | inl (x, bad) ↦ absurd (cc (rw (decide_by_request, bad) at e))
        | inr (o, good) ↦ elim (Option-cases o) [
          | inl undecided ↦
              let no_grant =
                require_approval-refused clock context subject sh scope mode s' d
                  (rw (decide_by_request, good, undecided) at e) in
              absurd (cc (no_grant, h))
          | inr (x, decided) ↦
              apply_autopilot-approved clock context moderator subject sh scope mode s d
                (good
                  ∙ ap inr (
                      decided
                      ∙ ap some (inr-injective x d (rw (decide_by_request, good, decided) at e))))
                h
        ]
      ]

module _ (c : Codec) (b : Broker) (clock : Clock) (moderator : Moderator) (subject : Subject)
    (token : String) (mode : Mode) (scope : Scope) (matcher : Matcher) (s : Store) where
  -- the four things that let an action run
  pub data Granted : Type 0 where
    by_token :
        (claims : Claims)
        → (verify_approval_token c b clock.token_at clock.consume_at token
            (canonical_subject_hash c b subject).hash
            (host_id b)
            s).1
          ≡ inr claims
        → Granted
    by_trust : mode ≡ trusted → Granted
    by_allowlist :
        mode ≡ allowlist
        → allowlist_matches c clock.match_at
            (subject_kind subject)
            scope
            matcher
            (check_existing_token c b clock token (canonical_subject_hash c b subject).hash s).0
          ≡ some true
        → Granted
    by_moderator :
        moderator.reviewed ≡ true → moderator.action ≡ "approve_once" → mode ≢ deny → Granted

-- An evaluation lets an action run only on a token that was accepted for the action's hash and this
-- host, in the mode `trusted`, in the mode `allowlist` where the search matched, or on the
-- autopilot's review in a mode other than `deny`.
pub evaluate_with_mode-Granted :
    (c : Codec) (b : Broker) (clock : Clock) (context : String) (moderator : Moderator)
    (subject : Subject) (token : String) (mode : Mode) (scope : Scope) (matcher : Matcher)
    (s : Store) (d : Decision)
    → (evaluate_with_mode c b clock context moderator subject token mode scope matcher s).1 ≡ inr d
    → d.allowed ≡ true
    → Granted c b clock moderator subject token mode scope matcher s
unfolding evaluate_with_mode
evaluate_with_mode-Granted c b clock context moderator subject token mode scope matcher s d e h =
    let sh = canonical_subject_hash c b subject in
    let r = check_existing_token c b clock token sh.hash s in
    elim (Option-cases r.1) [
      | inr (x, existing) ↦
          let (claims, accepted) =
            check_existing_token-accepted c b clock token sh.hash s x existing in
          by_token claims accepted
      | inl no_token ↦ elim (Option-cases (check_policy_mode c b sh.hash mode)) [
        | inr (x, policy) ↦
            let same = inr-injective x d (rw (evaluate_with_mode, no_token, policy) at e) in
            by_trust (
              check_policy_mode-allowed c b sh.hash mode x policy
                (ap (λ (d : Decision). d.allowed) same ∙ h))
        | inl open_to ↦
            elim (Option-cases (check_allowlist c b clock subject scope matcher sh.hash mode r.0)) [
              | inr (x, listed) ↦
                  let (in_mode, matched) =
                    check_allowlist-matched c b clock subject scope matcher sh.hash mode r.0 x
                      listed in
                  by_allowlist in_mode matched
              | inl unlisted ↦
                  let (reviewed, approves) =
                    decide_by_request-approved c b clock context moderator subject sh scope mode r.0
                      d (rw (evaluate_with_mode, no_token, open_to, unlisted) at e) h in
                  by_moderator reviewed approves (check_policy_mode-deny c b sh.hash mode open_to)
            ]
      ]
    ]
