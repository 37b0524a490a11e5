-- ===== src/Examples/Autopilot.antt =====
-- The autopilot's theorems at a concrete permission.
use or3_intern.Base.{◌≡◌, refl, true, ◌⊎◌, inr}
use or3_intern.Base.Text.{trim_space, to_lower, contains, member, all_chars}
use or3_intern.Base.FilePath.{clean, base, ends_with}
use or3_intern.Approval.Types.{Claims, runner_permission, empty_store, Decision}
use or3_intern.Approval.Tokens.{host_id, verify_approval_token}
use or3_intern.Approval.Evaluate.{
  canonical_subject_hash, check_existing_token, check_policy_mode, check_broker, check_allowlist,
  decide_by_request, apply_autopilot, evaluate_with_mode, permitted,
}
use or3_intern.Approval.Autopilot.{
  RunnerPermissionEvaluation, path_segments, is_sensitive_segment, system_path, sensitive_basename,
  sensitive_keyword, sensitive_target, broad_write, lower_or, review, runner_subject,
  evaluate_runner_permission,
}
use or3_intern.Approval.Autopilot.Rules.{Unlisted}
use or3_intern.Approval.Autopilot.Safe.{review-Unlisted, evaluate_runner_permission-Unlisted}
use or3_intern.Examples.Approval.{codec, broker, clock}

abbrev edit : RunnerPermissionEvaluation
edit = record {
  runner_id = "codex";
  permission_kind = "";
  access = "Write";
  target_path = "/work/notes/a.txt";
  agent_id = "";
  session_id = "";
  approval_token = "";
  autopilot = true;
  runner_mode = "";
}

review-Unlisted_example :
    (edit.autopilot ≡ true)
    × Unlisted
        (lower_or "" "filesystem")
        (lower_or "Write" "read")
        (clean (trim_space "/work/notes/a.txt"))
        (lower_or "" "safe_edit")
unfolding review to_lower trim_space clean sensitive_target path_segments is_sensitive_segment
    member system_path sensitive_basename base sensitive_keyword contains broad_write all_chars
    ends_with
review-Unlisted_example = review-Unlisted edit refl

abbrev permit : Decision
permit = record (permitted "h" "moderator_approved" 0) { moderator = review edit }

evaluate_runner_permission-Unlisted_example :
    ((claims : Claims) × ((verify_approval_token codec broker 3000 3000 ""
          (canonical_subject_hash codec broker
            (runner_permission (runner_subject broker edit))).hash
          (host_id broker)
          empty_store).1
        ≡ inr claims))
    ⊎ ((edit.autopilot ≡ true)
        × Unlisted
            (lower_or "" "filesystem")
            (lower_or "Write" "read")
            (clean (trim_space "/work/notes/a.txt"))
            (lower_or "" "safe_edit"))
unfolding review to_lower trim_space clean sensitive_target path_segments is_sensitive_segment
    member system_path sensitive_basename base sensitive_keyword contains broad_write all_chars
    ends_with permitted evaluate_runner_permission evaluate_with_mode check_existing_token
    check_policy_mode check_broker check_allowlist decide_by_request apply_autopilot
    canonical_subject_hash runner_subject
evaluate_runner_permission-Unlisted_example =
    evaluate_runner_permission-Unlisted codec broker clock "{}" edit empty_store permit refl refl
      refl
