-- ===== src/SecureConn/Roles.antt =====
-- internal/secureconn/certificate.go: roles and capabilities as the session claims carry them.
use or3_intern.Base.{
  Bool, false, ◌||◌, ◌≡◌, refl, Option, none, some, List, [], ◌∷◌, ◌++◌, String, str_eq, eq_iff,
  any, arith, if◌then◌else◌,
}
use or3_intern.Base.Text.{trim_space, to_lower, member}

pub data Role : Type 0 where
  viewer operator admin : Role

-- the empty text that the source returns for an unknown role is `none`
unfoldable pub normalize_role : String → Option Role
normalize_role role =
    let r = to_lower (trim_space role) in
    if str_eq r "viewer"
    then some viewer
    else if str_eq r "operator"
    then some operator
    else if str_eq r "admin"
    then some admin
    else none

-- strings.ToLower(strings.TrimSpace(s))
unfoldable pub fold : String → String
fold s = to_lower (trim_space s)

-- the loop of `NormalizeCapabilities`; `seen` holds what `out` holds
normalize_from : List String → List String → List String
normalize_from out [] = out
normalize_from out (c ∷ cs) =
    let capability = fold c in
    normalize_from
      (if str_eq capability "" || member capability out then out else out ++ capability ∷ []) cs

unfoldable pub normalize_capabilities : List String → List String
unfolding normalize_from
normalize_capabilities cs = normalize_from [] cs

-- `for … { if capability == want { return true } }` over the normalized capabilities
unfoldable pub has_capability : List String → String → Bool
has_capability capabilities want = member (fold want) (normalize_capabilities capabilities)

member-append :
    (w : String) (xs ys : List String) → member w (xs ++ ys) ≡ (member w xs || member w ys)
unfolding member
member-append w [] ys = refl
member-append w (x ∷ xs) ys = ground (arith, member-append w xs ys)

-- some capability reads `want` once folded
abbrev pub granted : List String → String → Bool
granted cs want = any (λ c. str_eq (fold c) want) cs

member-normalize_from :
    (w : String) (out cs : List String)
    → str_eq w "" ≡ false
    → member w (normalize_from out cs) ≡ (member w out || granted cs w)
unfolding normalize_from member
member-normalize_from w out [] h = ground arith
member-normalize_from w out (c ∷ cs) h =
    let next = (if str_eq (fold c) "" || member (fold c) out then out else out ++ fold c ∷ []) in
    ground (
      arith,
      member-normalize_from w next cs,
      member-append w out (fold c ∷ []),
      eq_iff (fold c) w,
      eq_iff (fold c) "",
      eq_iff w "",
    )

-- Normalizing the capabilities, which folds them and drops blanks and repetitions, loses none that is
-- asked for: a capability that is not blank is had exactly when one on the list reads the same once
-- both are folded.
pub has_capability_lem :
    (cs : List String) (want : String)
    → str_eq (fold want) "" ≡ false
    → has_capability cs want ≡ granted cs (fold want)
unfolding has_capability normalize_capabilities member
has_capability_lem cs want h = member-normalize_from (fold want) [] cs h
