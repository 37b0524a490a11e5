-- ===== src/Approval/Allowlist.antt =====
-- internal/approval/allowlist.go and allowlist_keys.go: allowlist rows and how they match.
pub mod Search
use Prim.Native.String.{◌++◌ as append}
use or3_intern.Base.{
  ℕ, zero, suc, ◌+◌, ◌==◌, String, str_eq, Bool, true, false, not, ◌&&◌, ◌||◌, Option, none, some,
  ◌⊎◌, inl, inr, List, [], ◌∷◌, length, drop, take, ltb, if◌then◌else◌, ◌>>=◌,
}
use or3_intern.Base.Text.{trim_space, is_blank}
use or3_intern.Approval.Types.{
  subject_exec, subject_skill_exec, subject_runner_permission, Codec, Scope, Matcher, exec, skill,
  runner_permission, ExecMatcher, Keys, Allowlist, Store, Error, allowlist_not_found,
  invalid_matcher,
}
use or3_intern.Approval.Store.{create_or_get_allowlist, disable_allowlist}
use or3_intern.Approval.Matchers.{
  as_exec, as_skill, as_runner, is_empty_exec, is_empty_skill, is_empty_runner, admits,
  fields_match_exec, fields_match_skill, fields_match_runner,
}

unfoldable pub no_keys : Scope → Keys
no_keys scope = record {
  scope_host_id = trim_space scope.host_id;
  scope_tool = trim_space scope.tool;
  scope_profile = trim_space scope.profile;
  scope_agent = trim_space scope.agent;
  match_executable_path = "";
  match_working_dir = "";
  match_script_hash = "";
  match_skill_id = "";
  match_plan_hash = "";
  match_runner_id = "";
  match_target_path = "";
  match_path_prefix = "";
  match_fingerprint = "";
}

-- the switch of `allowlistMatchKeys`
unfoldable pub matcher_keys : String → Scope → Matcher → Keys
unfolding no_keys
matcher_keys domain scope matcher =
    let e = as_exec matcher in
    let s = as_skill matcher in
    let r = as_runner matcher in
    if str_eq domain subject_exec
    then record (no_keys scope) {
      match_executable_path = trim_space e.executable_path;
      match_working_dir = trim_space e.working_dir;
      match_script_hash = trim_space e.script_hash;
    }
    else if str_eq domain subject_skill_exec
    then record (no_keys scope) {
      match_skill_id = trim_space s.skill_id;
      match_plan_hash = trim_space s.plan_hash;
      match_script_hash = trim_space s.script_hash;
    }
    else if str_eq domain subject_runner_permission
    then record (no_keys scope) {
      match_runner_id = trim_space r.runner_id;
      match_target_path = trim_space r.target_path;
      match_path_prefix = trim_space r.path_prefix;
    }
    else no_keys scope

-- whether a row's column passes the filter that `appendScopeFilter` adds for a value
unfoldable pub passes : String → String → Bool
passes value column = is_blank value || str_eq column "" || str_eq column value

-- the WHERE of `ListApprovalAllowlistCandidates`
unfoldable pub is_candidate : String → ℕ → Keys → Allowlist → Bool
is_candidate domain now q row =
    str_eq row.domain domain
    && row.disabled_at == 0
    && (row.expires_at == 0 || ltb now row.expires_at)
    && passes q.scope_host_id row.keys.scope_host_id
    && passes q.scope_tool row.keys.scope_tool
    && passes q.scope_profile row.keys.scope_profile
    && passes q.scope_agent row.keys.scope_agent
    && passes q.match_executable_path row.keys.match_executable_path
    && passes q.match_working_dir row.keys.match_working_dir
    && passes q.match_script_hash row.keys.match_script_hash
    && passes q.match_skill_id row.keys.match_skill_id
    && passes q.match_plan_hash row.keys.match_plan_hash
    && passes q.match_runner_id row.keys.match_runner_id
    && passes q.match_target_path row.keys.match_target_path
    && passes q.match_path_prefix row.keys.match_path_prefix

-- the rows that pass, without their numbers
unfoldable pub candidates : String → ℕ → Keys → List (ℕ × Allowlist) → List Allowlist
candidates domain now q [] = []
candidates domain now q ((id, row) ∷ t) =
    let rest = candidates domain now q t in
    if is_candidate domain now q row then row ∷ rest else rest

-- `AddAllowlist`'s `ValidateAllowlistMatcher`, where the assertion of the type is the match
unfoldable pub validate_matcher : String → Matcher → Bool
validate_matcher domain (exec m) = str_eq (trim_space domain) subject_exec && not (is_empty_exec m)
validate_matcher domain (skill m) =
    str_eq (trim_space domain) subject_skill_exec && not (is_empty_skill m)
validate_matcher domain (runner_permission m) =
    str_eq (trim_space domain) subject_runner_permission && not (is_empty_runner m)

module _ (c : Codec) where
  unfoldable pub allowlist_match_keys : String → Scope → Matcher → Keys
  allowlist_match_keys domain scope matcher =
      let d = trim_space domain in
      record (matcher_keys d scope matcher) {
        match_fingerprint = c.sha256_hex (
            append d
              (append "\n" (append (c.scope_json scope) (append "\n" (c.matcher_json matcher)))));
      }

  unfoldable pub scope_matches : Scope → String → Bool
  scope_matches scope raw = if is_blank raw then true else elim (c.read_scope raw) [
    | none ↦ false
    | some rec ↦
        admits rec.host_id scope.host_id
        && admits rec.tool scope.tool
        && admits rec.profile scope.profile
        && admits rec.agent scope.agent
  ]

  -- the case of exec subjects; `none` is an error
  unfoldable pub matches_exec : ExecMatcher → ExecMatcher → Option Bool
  matches_exec expected actual =
      if is_empty_exec expected
      then some false
      else if not (admits expected.executable_path actual.executable_path)
      then some false
      else if str_eq expected.path_glob ""
      then some (fields_match_exec expected actual)
      else do
        globbed ← c.path_match expected.path_glob actual.executable_path
        some (globbed && fields_match_exec expected actual)

  -- `allowlistMatcherMatches`
  unfoldable pub matcher_matches : String → Matcher → String → Option Bool
  matcher_matches kind current raw =
      if str_eq kind subject_exec
      then (do e ← c.read_exec_matcher raw; matches_exec e (as_exec current))
      else if str_eq kind subject_skill_exec
      then (do
        e ← c.read_skill_matcher raw
        some (not (is_empty_skill e) && fields_match_skill e (as_skill current)))
      else if str_eq kind subject_runner_permission
      then (do
        e ← c.read_runner_matcher raw
        some (not (is_empty_runner e) && fields_match_runner e (as_runner current)))
      else some false

  -- the guards before the matcher, in the loop over a page
  unfoldable pub applies : ℕ → Scope → Allowlist → Bool
  applies now scope row =
      not (ltb 0 row.disabled_at)
      && not (ltb 0 row.expires_at && ltb row.expires_at now)
      && scope_matches scope row.scope_json

  unfoldable pub scan_page : String → ℕ → Scope → Matcher → List Allowlist → Option Bool
  scan_page kind now scope matcher [] = some false
  scan_page kind now scope matcher (row ∷ rows) =
      let rest = scan_page kind now scope matcher rows in
      if not (applies now scope row) then rest else do
        matched ← matcher_matches kind matcher row.matcher_json
        if matched then some true else rest

  -- the loop over the pages of 200 rows, with fuel; the table stays as it is between two pages
  unfoldable pub search : ℕ → String → ℕ → Scope → Matcher → ℕ → List Allowlist → Option Bool
  search zero kind now scope matcher offset rows = some false
  search (suc fuel) kind now scope matcher offset rows =
      let page = take 200 (drop offset rows) in
      let more = search fuel kind now scope matcher (offset + 200) rows in
      do
        matched ← scan_page kind now scope matcher page
        if matched then some true else if ltb (length page) 200 then some false else more

  unfoldable pub allowlist_matches : ℕ → String → Scope → Matcher → Store → Option Bool
  unfolding allowlist_match_keys
  allowlist_matches now kind scope matcher s =
      let rows = candidates kind now (allowlist_match_keys kind scope matcher) s.allowlists in
      search (suc (length rows)) kind now scope matcher 0 rows

  unfoldable pub allowlist_input : ℕ → String → Scope → Matcher → String → ℕ → Allowlist
  unfolding allowlist_match_keys
  allowlist_input now domain scope matcher actor expires_at = record {
    domain = domain;
    scope_json = c.scope_json scope;
    matcher_json = c.matcher_json matcher;
    created_by = actor;
    created_at = now;
    expires_at = expires_at;
    disabled_at = 0;
    keys = allowlist_match_keys domain scope matcher;
  }

  unfoldable pub add_allowlist :
      ℕ → String → Scope → Matcher → String → ℕ → Store → Store × (Error ⊎ (ℕ × Allowlist))
  unfolding allowlist_input
  add_allowlist now domain scope matcher actor expires_at s =
      if not (validate_matcher domain matcher)
      then (s, inl invalid_matcher)
      else let (s', row) =
          create_or_get_allowlist (allowlist_input now domain scope matcher actor expires_at) s in
        (s', inr row)

unfoldable pub remove_allowlist : ℕ → ℕ → Store → Store × (Option Error)
remove_allowlist now id s =
    let (s', disabled) = disable_allowlist id now s in
    if disabled then (s', none) else (s', some allowlist_not_found)
