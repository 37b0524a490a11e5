-- ===== src/SecureConn/Authorization/Safety.antt =====
-- What an allowed action guarantees, and that nothing more is asked of an admin device.
use or3_intern.Base.{
  ℕ, ◌+◌, ◌*◌, ◌/◌, ◌≤◌, ◌<◌, ◌≡◌, refl, ◌≢◌, ◌↔◌, ◌⊎◌, inl, inr, eq_iff, true, false, none, some,
  arith, Option-cases,
}
use or3_intern.SecureConn.Types.{step_up_required}
use or3_intern.SecureConn.Roles.{Role, viewer, operator, admin, normalize_role, has_capability}
use or3_intern.SecureConn.Claims.{SessionClaims}
use or3_intern.SecureConn.Authorization.{
  ActionClass, view, ActionRequest, authorize_action, authorize_role, role_forbids,
  requires_step_up, requires_web_step_up, has_recent_step_up, step_up_ttl_for_trust, needs_admin,
  is_view, second, deny,
}

-- a session that has not run out
abbrev pub IsLive : SessionClaims → ℕ → Type 0
IsLive c now = (c.expires_at ≡ 0) ⊎ (now / 1000000 < c.expires_at)

-- a step-up that lies in the past, at most two minutes for a limited web client and five for others
pub record SteppedUp (c : SessionClaims) (now : ℕ) : Type 0 where
  pub done : 0 < c.step_up_at
  pub past : c.step_up_at * 1000000 ≤ now
  pub recent : now ≤ c.step_up_at * 1000000 + 5 * 60 * second
  pub recent_web : c.trust_level ≡ "web-limited" → now ≤ c.step_up_at * 1000000 + 2 * 60 * second

has_recent_step_up-SteppedUp :
    (c : SessionClaims) (now : ℕ)
    → has_recent_step_up c.step_up_at now (step_up_ttl_for_trust c.trust_level) ≡ true
    → SteppedUp c now
unfolding has_recent_step_up step_up_ttl_for_trust
has_recent_step_up-SteppedUp c now h = record {
  done = ground arith;
  past = ground arith;
  recent = ground arith;
  recent_web = λ web. ground (arith, eq_iff c.trust_level "web-limited");
}

-- what an allowed action has passed
pub record Safe (c : SessionClaims) (action : ActionRequest) (now : ℕ) : Type 0 where
  pub live : IsLive c now
  pub has_role : normalize_role c.role ≢ none
  pub viewer_views : normalize_role c.role ≡ some viewer → action.class ≡ view
  pub operator_limited : normalize_role c.role ≡ some operator → needs_admin action.class ≡ false
  pub capable :
      (normalize_role c.role ≡ some admin)
      ⊎ (action.capability ≡ "")
      ⊎ (has_capability c.capabilities action.capability ≡ true)
  pub stepped_up : requires_step_up action.class ≡ true → SteppedUp c now
  pub web_stepped_up : c.trust_level ≡ "web-limited" → action.class ≢ view → SteppedUp c now

is_view-eq-true : (a : ActionClass) → is_view a ≡ true → a ≡ view
is_view-eq-true view h = refl
is_view-eq-true _ h = cc

requires_web_step_up_of :
    (c : SessionClaims) (a : ActionClass)
    → c.trust_level ≡ "web-limited"
    → a ≢ view
    → requires_web_step_up c a ≡ true
unfolding requires_web_step_up
requires_web_step_up_of c view web acts = absurd (acts refl)
requires_web_step_up_of c _ web acts = ground (arith, eq_iff c.trust_level "web-limited")

authorize_role-Safe :
    (role : Role) (c : SessionClaims) (action : ActionRequest) (now : ℕ)
    → normalize_role c.role ≡ some role
    → IsLive c now
    → (authorize_role role c action now).allowed ≡ true
    → Safe c action now
unfolding authorize_role deny role_forbids
authorize_role-Safe role c action now r live h = record {
  live = live;
  has_role = λ e. cc;
  viewer_views = λ e. is_view-eq-true action.class (ground arith);
  operator_limited = λ e. ground arith;
  capable = ground (arith, eq_iff action.capability "");
  stepped_up = λ e. has_recent_step_up-SteppedUp c now (ground arith);
  web_stepped_up = λ web acts.
      has_recent_step_up-SteppedUp c now
        (ground (arith, requires_web_step_up_of c action.class web acts));
}

-- Whatever the claims, the action and the time: an allowed action comes from a session that is not
-- expired and has a valid role; a viewer only views; an operator takes no administrative action; who
-- is no admin has the capability, if one is named; and a sensitive action, or any but a view from a
-- limited web client, has a step-up in the past within the time that its trust level gives.
pub authorize_action-Safe :
    (c : SessionClaims) (action : ActionRequest) (now : ℕ)
    → (authorize_action c action now).allowed ≡ true
    → Safe c action now
unfolding authorize_action deny
authorize_action-Safe c action now h = elim (Option-cases (normalize_role c.role)) [
  | inl invalid ↦ absurd (ground arith)
  | inr (role, valid) ↦ authorize_role-Safe role c action now valid (ground arith) (ground arith)
]

-- An admin device with a live session and a recent step-up may take every action.
authorize_action_admin :
    (c : SessionClaims) (action : ActionRequest) (now : ℕ)
    → IsLive c now
    → normalize_role c.role ≡ some admin
    → has_recent_step_up c.step_up_at now (step_up_ttl_for_trust c.trust_level) ≡ true
    → (authorize_action c action now).allowed ≡ true
unfolding authorize_action authorize_role role_forbids
authorize_action_admin c action now live r up = ground arith

-- A refusal carries a code, in the decision and in the audit payload alike, and asks for a step-up
-- exactly when the code is the one for that.
pub authorize_action_denied :
    (c : SessionClaims) (action : ActionRequest) (now : ℕ)
    → (authorize_action c action now).allowed ≡ false
    → let d = authorize_action c action now in
      (d.code ≢ none)
      × (d.audit_payload.outcome ≡ some false)
      × (d.audit_payload.code ≡ d.code)
      × ((d.requires_step ≡ true) ↔ (d.code ≡ some step_up_required))
unfolding authorize_action authorize_role deny
authorize_action_denied c action now h =
    (λ e. ground arith, ground arith, ground arith, (λ e. ground arith, λ e. ground arith))

-- A refusal that asks for a step-up is lifted by one: the same action at the same time is allowed once
-- the claims hold any recent step-up for their trust level.
authorize_action_retry :
    (c : SessionClaims) (action : ActionRequest) (now at : ℕ)
    → (authorize_action c action now).requires_step ≡ true
    → has_recent_step_up at now (step_up_ttl_for_trust c.trust_level) ≡ true
    → (authorize_action (record c { step_up_at = at }) action now).allowed ≡ true
unfolding authorize_action authorize_role deny requires_web_step_up
authorize_action_retry c action now at h up = ground arith
