-- ===== src/SecureConn/Authorization.antt =====
-- internal/secureconn/authorization.go: which action a session may take. A time is in nanoseconds since
-- 1970, and `UnixMilli` divides; a caller never passes the zero time.
pub mod Classify
pub mod Safety
use or3_intern.Base.{
  ℕ, ◌+◌, ◌-◌, ◌*◌, ◌/◌, String, str_eq, Bool, true, false, not, ◌&&◌, ◌||◌, Option, none, some,
  List, [], ◌∷◌, ltb, leb, ◌==◌, if◌then◌else◌,
}
use or3_intern.Base.Text.{trim_space, to_lower, to_upper, contains}
use or3_intern.SecureConn.Types.{
  Code, session_expired, capability_denied, step_up_required, Error, secure, other,
}
use or3_intern.SecureConn.Roles.{Role, viewer, operator, admin, normalize_role, has_capability}
use or3_intern.SecureConn.Claims.{SessionClaims}

pub data ActionClass : Type 0 where
  view mutate terminal tool secrets security_config profile_escalation device_management :
      ActionClass
  -- any other text: the field is a plain string
  unknown : String → ActionClass

pub record ActionRequest : Type 0 where
  pub class : ActionClass
  pub capability : String
  pub method : String
  pub path : String
  pub tool : String

pub record SecureAuditClaims : Type 0 where
  pub host_id : String
  pub device_id : String
  pub session_id : String
  pub relay_route_id : String
  pub role : String
  pub trust_level : String
  pub enrollment_epoch : ℕ

-- the map `AuditPayload`, whose keys are always the same
pub record AuditPayload : Type 0 where
  pub session_id : String
  pub device_id : String
  pub route_id : String
  pub role : String
  pub trust : String
  pub class : ActionClass
  pub capability : String
  pub outcome : Option Bool
  pub code : Option Code

pub record AuthorizationDecision : Type 0 where
  pub allowed : Bool
  pub code : Option Code
  pub requires_step : Bool
  pub audit_payload : AuditPayload
  pub claims : SecureAuditClaims

unfoldable pub any_in : String → List String → Bool
any_in text [] = false
any_in text (s ∷ ss) = contains text s || any_in text ss

unfoldable pub classify_action : String → String → String → ActionRequest
unfolding any_in
classify_action method path tool_name =
    let m = to_upper (trim_space method) in
    let p = to_lower (trim_space path) in
    let t = to_lower (trim_space tool_name) in
    let request : ActionClass → String → ActionRequest = λ class capability. record {
      class = class;
      capability = capability;
      method = m;
      path = p;
      tool = t;
    } in
    if contains p "/terminal" || contains t "terminal" || contains t "shell" || contains t "exec"
    then request terminal "terminal"
    else if contains p "/secrets" || contains t "secret"
    then request secrets "secrets"
    else if contains p "/secure-connections" || contains p "/devices"
    then request device_management "devices"
    else if contains p "/profiles" || contains p "/approvals" || contains p "/auth/policy"
    then request security_config "admin"
    else if contains t "write" || contains t "delete" || contains t "patch" || contains t "apply"
    then request tool "tools"
    else if not (str_eq m "")
        && not (str_eq m "GET")
        && not (str_eq m "HEAD")
        && not (str_eq m "OPTIONS")
    then request mutate "files"
    else if str_eq p "" && str_eq t ""
    then request mutate "files"
    else request view "chat"

abbrev pub is_view : ActionClass → Bool
is_view view = true
is_view _ = false

-- what the source spells out in `requiresStepUp`
unfoldable pub requires_step_up : ActionClass → Bool
requires_step_up terminal = true
requires_step_up tool = true
requires_step_up secrets = true
requires_step_up security_config = true
requires_step_up profile_escalation = true
requires_step_up device_management = true
requires_step_up _ = false

unfoldable pub requires_web_step_up : SessionClaims → ActionClass → Bool
requires_web_step_up claims class = str_eq claims.trust_level "web-limited" && not (is_view class)

abbrev pub second : ℕ
second = 1000000000

unfoldable pub step_up_ttl_for_trust : String → ℕ
step_up_ttl_for_trust trust =
    if str_eq trust "web-limited" then 2 * 60 * second else 5 * 60 * second

-- `ttl` is positive at every call, so the default of the source is not reached
unfoldable pub has_recent_step_up : ℕ → ℕ → ℕ → Bool
has_recent_step_up step_up_at now ttl =
    if step_up_at == 0
    then false
    else leb (step_up_at * 1000000) now && leb (now - step_up_at * 1000000) ttl

unfoldable pub deny : AuthorizationDecision → Code → Bool → AuthorizationDecision
deny d code step_up = record d {
  allowed = false;
  code = some code;
  requires_step = step_up;
  audit_payload = record d.audit_payload { outcome = some false; code = some code };
}

unfoldable pub allow : AuthorizationDecision → AuthorizationDecision
allow d = record d {
  allowed = true;
  audit_payload = record d.audit_payload { outcome = some true };
}

-- the decision before any test
unfoldable pub undecided : SessionClaims → ActionRequest → AuthorizationDecision
undecided c action = record {
  allowed = false;
  code = none;
  requires_step = false;
  audit_payload = record {
    session_id = c.session_id;
    device_id = c.device_id;
    route_id = c.relay_route_id;
    role = c.role;
    trust = c.trust_level;
    class = action.class;
    capability = action.capability;
    outcome = none;
    code = none;
  };
  claims = record {
    host_id = c.host_id;
    device_id = c.device_id;
    session_id = c.session_id;
    relay_route_id = c.relay_route_id;
    role = c.role;
    trust_level = c.trust_level;
    enrollment_epoch = c.enrollment_epoch;
  };
}

abbrev pub needs_admin : ActionClass → Bool
needs_admin security_config = true
needs_admin profile_escalation = true
needs_admin device_management = true
needs_admin _ = false

abbrev pub is_admin : Role → Bool
is_admin admin = true
is_admin _ = false

-- the two tests on the role alone
unfoldable pub role_forbids : Role → ActionClass → Bool
role_forbids viewer class = not (is_view class)
role_forbids operator class = needs_admin class
role_forbids admin class = false

-- the tests after the role is known
unfoldable pub authorize_role : Role → SessionClaims → ActionRequest → ℕ → AuthorizationDecision
unfolding role_forbids allow undecided
authorize_role role claims action now =
    let d = undecided claims action in
    if role_forbids role action.class
    then deny d capability_denied false
    else if not (str_eq action.capability "")
        && not (has_capability claims.capabilities action.capability)
        && not (is_admin role)
    then deny d capability_denied false
    else if (requires_step_up action.class || requires_web_step_up claims action.class)
        && not (has_recent_step_up claims.step_up_at now (step_up_ttl_for_trust claims.trust_level))
    then deny d step_up_required true
    else allow d

unfoldable pub authorize_action : SessionClaims → ActionRequest → ℕ → AuthorizationDecision
unfolding authorize_role undecided
authorize_action claims action now =
    if ltb 0 claims.expires_at && leb claims.expires_at (now / 1000000)
    then deny (undecided claims action) session_expired false
    else elim (normalize_role claims.role) [
      | none ↦ deny (undecided claims action) capability_denied false
      | some role ↦ authorize_role role claims action now
    ]

-- HasRecentStepUp, for a whole set of claims
unfoldable pub claims_have_recent_step_up : SessionClaims → ℕ → Bool
claims_have_recent_step_up claims now =
    has_recent_step_up claims.step_up_at now (step_up_ttl_for_trust claims.trust_level)

unfoldable pub authorization_error : AuthorizationDecision → Option Error
authorization_error d =
    if d.allowed
    then none
    else elim d.code [ none ↦ some (other "") | some code ↦ some (secure code d.requires_step) ]

-- `stepUpAt` is `none` for the zero time
unfoldable pub validate_step_up_update : SessionClaims → Option ℕ → ℕ → SessionClaims × Option Error
validate_step_up_update claims none now =
    (claims, some (other "invalid step-up verification timestamp"))
validate_step_up_update claims (some at) now =
    if ltb (now + 5 * second) at
    then (claims, some (other "invalid step-up verification timestamp"))
    else (record claims { step_up_at = at / 1000000 }, none)
