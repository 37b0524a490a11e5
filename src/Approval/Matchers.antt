-- ===== src/Approval/Matchers.antt =====
-- internal/approval/allowlist.go: the matchers of allowlist rows, and when one is empty.
use Prim.Native.String.{◌++◌ as append}
use text.Mathlib.Text.{starts_with}
use or3_intern.Base.{
  ◌==◌, String, str_eq, Bool, true, false, not, ◌&&◌, ◌||◌, List, [], ◌∷◌, length,
}
use or3_intern.Base.Int.{pos, ltb_ℤ, eq_ℤ}
use or3_intern.Base.Text.{is_blank}
use or3_intern.Approval.Types.{
  Matcher, exec, skill, runner_permission, ExecMatcher, SkillMatcher, RunnerPermissionMatcher,
}

-- a type assertion whose failure leaves the zero value
unfoldable pub as_exec : Matcher → ExecMatcher
as_exec (exec m) = m
as_exec _ = record {
  executable_path = "";
  path_glob = "";
  argv = [];
  working_dir = "";
  working_dir_pref = "";
  script_hash = "";
}

unfoldable pub as_skill : Matcher → SkillMatcher
as_skill (skill m) = m
as_skill _ = record {
  skill_id = "";
  version = "";
  origin = "";
  trust_state = "";
  plan_hash = "";
  script_hash = "";
  env_binding_hash = "";
  timeout_seconds = pos 0;
}

unfoldable pub as_runner : Matcher → RunnerPermissionMatcher
as_runner (runner_permission m) = m
as_runner _ = record {
  runner_id = "";
  permission_kind = "";
  access = "";
  target_path = "";
  path_prefix = "";
}

unfoldable pub is_empty_exec : ExecMatcher → Bool
is_empty_exec m =
    is_blank m.executable_path
    && is_blank m.path_glob
    && length m.argv == 0
    && is_blank m.working_dir
    && is_blank m.working_dir_pref
    && is_blank m.script_hash

unfoldable pub is_empty_skill : SkillMatcher → Bool
is_empty_skill m =
    is_blank m.skill_id
    && is_blank m.version
    && is_blank m.origin
    && is_blank m.trust_state
    && is_blank m.plan_hash
    && is_blank m.script_hash
    && is_blank m.env_binding_hash
    && eq_ℤ m.timeout_seconds (pos 0)

unfoldable pub is_empty_runner : RunnerPermissionMatcher → Bool
is_empty_runner m =
    is_blank m.runner_id
    && is_blank m.permission_kind
    && is_blank m.access
    && is_blank m.target_path
    && is_blank m.path_prefix

-- slices.Equal
unfoldable pub same_argv : List String → List String → Bool
same_argv [] [] = true
same_argv [] (b ∷ q) = false
same_argv (a ∷ r) [] = false
same_argv (a ∷ r) (b ∷ q) = str_eq a b && same_argv r q

-- `expected == "" || expected == actual`
unfoldable pub admits : String → String → Bool
admits expected actual = str_eq expected "" || str_eq expected actual

unfoldable pub fields_match_exec : ExecMatcher → ExecMatcher → Bool
fields_match_exec expected actual =
    (length expected.argv == 0 || same_argv expected.argv actual.argv)
    && admits expected.working_dir actual.working_dir
    && (str_eq expected.working_dir_pref ""
        || starts_with actual.working_dir expected.working_dir_pref)
    && admits expected.script_hash actual.script_hash

unfoldable pub fields_match_skill : SkillMatcher → SkillMatcher → Bool
fields_match_skill expected actual =
    admits expected.skill_id actual.skill_id
    && admits expected.version actual.version
    && admits expected.origin actual.origin
    && admits expected.trust_state actual.trust_state
    && admits expected.plan_hash actual.plan_hash
    && admits expected.script_hash actual.script_hash
    && admits expected.env_binding_hash actual.env_binding_hash
    && (not (ltb_ℤ (pos 0) expected.timeout_seconds)
        || eq_ℤ expected.timeout_seconds actual.timeout_seconds)

unfoldable pub under : String → String → Bool
under path prefix = str_eq path prefix || starts_with path (append prefix "/")

unfoldable pub fields_match_runner : RunnerPermissionMatcher → RunnerPermissionMatcher → Bool
fields_match_runner expected actual =
    admits expected.runner_id actual.runner_id
    && admits expected.permission_kind actual.permission_kind
    && admits expected.access actual.access
    && admits expected.target_path actual.target_path
    && (str_eq expected.path_prefix "" || under actual.target_path expected.path_prefix)
