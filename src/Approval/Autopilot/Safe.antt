-- ===== src/Approval/Autopilot/Safe.antt =====
-- What the autopilot lets a runner do.
use or3_intern.Base.{
  ◌≡◌, refl, ◌≢◌, String, str_eq, eq_iff, Bool, true, false, not, ◌&&◌, ◌||◌, ◌⊎◌, inl, inr, arith,
  Bool-cases, if◌then◌else◌,
}
use or3_intern.Base.Text.{trim_space, str_ne}
use or3_intern.Base.FilePath.{clean}
use or3_intern.Approval.Types.{
  Codec, Broker, Claims, runner_permission, ask, Moderator, no_moderator, Store, Decision,
}
use or3_intern.Approval.Tokens.{host_id, verify_approval_token}
use or3_intern.Approval.Evaluate.{Clock, canonical_subject_hash}
use or3_intern.Approval.Evaluate.Granted.{
  Granted, by_token, by_trust, by_allowlist, by_moderator, evaluate_with_mode-Granted,
}
use or3_intern.Approval.Autopilot.{
  RunnerPermissionEvaluation, sensitive_target, broad_write, lower_or, reviewed_as, review_access,
  review_target, review, runner_subject, runner_scope, runner_matcher, evaluate_runner_permission,
}
use or3_intern.Approval.Autopilot.Rules.{IsMild, Unlisted, insensitive-Unnamed, narrow_write}

escalates : ◌≢◌ {A = String} "escalate" "approve_once"
escalates = str_ne "escalate" "approve_once" refl

review_access-IsMild :
    (access target mode : String)
    → (review_access access target mode).action ≡ "approve_once"
    → IsMild access target mode
unfolding review_access reviewed_as
review_access-IsMild access target mode e = elim (Bool-cases (str_eq access "read")) [
  | inl reads ↦ inl ((eq_iff access "read").0 reads)
  | inr other ↦
      elim (Bool-cases
        (str_eq access "write" && not (str_eq mode "review") && not (broad_write target))) [
          | inl writes ↦ inr (
            ground (arith, eq_iff access "write"),
            λ h. ground (arith, eq_iff mode "review"),
            narrow_write target (ground arith),
          )
          | inr refused ↦ elim (Bool-cases (str_eq access "write" && str_eq mode "review")) [
            | inl asks ↦ absurd (escalates (rw (review_access, other, refused, asks) at e))
            | inr outside ↦ absurd (escalates (rw (review_access, other, refused, outside) at e))
          ]
        ]
]

review_target-Unlisted :
    (kind access target mode : String)
    → (review_target kind access target mode).action ≡ "approve_once"
    → Unlisted kind access target mode
unfolding review_target reviewed_as
review_target-Unlisted kind access target mode e = elim (Bool-cases (str_eq kind "filesystem")) [
  | inr other ↦ absurd (escalates (rw (review_target, other) at e))
  | inl files ↦ elim (Bool-cases (str_eq target "" || str_eq target "." || str_eq target "/")) [
    | inl broad ↦ absurd (escalates (rw (review_target, files, broad) at e))
    | inr named ↦ elim (Bool-cases (sensitive_target target)) [
      | inl sensitive ↦ absurd (escalates (rw (review_target, files, named, sensitive) at e))
      | inr quiet ↦ record {
        filesystem = (eq_iff kind "filesystem").0 files;
        narrow = (
          λ h. ground (arith, eq_iff target ""),
          λ h. ground (arith, eq_iff target "."),
          λ h. ground (arith, eq_iff target "/"),
        );
        unnamed = insensitive-Unnamed target quiet;
        mild =
            review_access-IsMild access target mode (rw (review_target, files, named, quiet) at e);
      }
    ]
  ]
]

-- The autopilot approves only for who asked for it, and only what its rules leave over: the kind
-- `filesystem`; not the bare root or working directory; no path with a segment .ssh, .gnupg, .aws or
-- .config, under etc or var/db, named .env, .env.*, approvals.key, config.json, config.yaml or config.yml,
-- or with secret, token, credential, keychain, approval, sandbox or security in its name; to be read, or
-- to be written in another mode than `review` where the path does not end in /, /.., /. or /*. That a
-- written path lies in the workspace is not among the rules.
pub review-Unlisted :
    (req : RunnerPermissionEvaluation)
    → (review req).action ≡ "approve_once"
    → (req.autopilot ≡ true)
      × Unlisted
          (lower_or req.permission_kind "filesystem")
          (lower_or req.access "read")
          (clean (trim_space req.target_path))
          (lower_or req.runner_mode "safe_edit")
unfolding review
review-Unlisted req e =
    let kind = lower_or req.permission_kind "filesystem" in
    let access = lower_or req.access "read" in
    let target = clean (trim_space req.target_path) in
    let mode = lower_or req.runner_mode "safe_edit" in
    let (asked, approved) = on req.autopilot (review_target kind access target mode) e in
    (asked, review_target-Unlisted kind access target mode approved)
  where
    on :
        (autopilot : Bool) (m : Moderator)
        → (if not autopilot then no_moderator else m).action ≡ "approve_once"
        → (autopilot ≡ true) × (m.action ≡ "approve_once")
    on true m e = (refl, e)
    on false m e = absurd (str_ne "" "approve_once" refl e)

-- In the mode `ask` a runner's permission is granted only on a token that was accepted for it, or by the
-- autopilot for a target that its rules leave over, as in review-Unlisted.
pub evaluate_runner_permission-Unlisted :
    (c : Codec) (b : Broker) (clock : Clock) (context : String) (req : RunnerPermissionEvaluation)
    (s : Store) (d : Decision)
    → b.exec_mode ≡ ask
    → (evaluate_runner_permission c b clock context req s).1 ≡ inr d
    → d.allowed ≡ true
    → ((claims : Claims) × ((verify_approval_token c b clock.token_at clock.consume_at
            req.approval_token
            (canonical_subject_hash c b (runner_permission (runner_subject b req))).hash
            (host_id b)
            s).1
          ≡ inr claims))
      ⊎ ((req.autopilot ≡ true)
          × Unlisted
              (lower_or req.permission_kind "filesystem")
              (lower_or req.access "read")
              (clean (trim_space req.target_path))
              (lower_or req.runner_mode "safe_edit"))
unfolding evaluate_runner_permission
evaluate_runner_permission-Unlisted c b clock context req s d asking e h =
    let subject = runner_subject b req in
    of_grant (
      evaluate_with_mode-Granted c b clock context (review req) (runner_permission subject)
        req.approval_token b.exec_mode (runner_scope subject) (runner_matcher subject) s d e h)
  where
    of_grant :
        Granted c b clock
          (review req)
          (runner_permission (runner_subject b req))
          req.approval_token
          b.exec_mode
          (runner_scope (runner_subject b req))
          (runner_matcher (runner_subject b req))
          s
        → ((claims : Claims) × ((verify_approval_token c b clock.token_at clock.consume_at
                req.approval_token
                (canonical_subject_hash c b (runner_permission (runner_subject b req))).hash
                (host_id b)
                s).1
              ≡ inr claims))
          ⊎ ((req.autopilot ≡ true)
              × Unlisted
                  (lower_or req.permission_kind "filesystem")
                  (lower_or req.access "read")
                  (clean (trim_space req.target_path))
                  (lower_or req.runner_mode "safe_edit"))
    of_grant (by_token claims accepted) = inl (claims, accepted)
    of_grant (by_trust trusting) = absurd (cc (trusting, asking))
    of_grant (by_allowlist listing matched) = absurd (cc (listing, asking))
    of_grant (by_moderator reviewed approves not_denied) = inr (review-Unlisted req approves)
