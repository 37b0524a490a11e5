-- ===== src/SecureConn/Authorization/Classify.antt =====
-- What a request that is classed as a view cannot be.
use or3_intern.Base.{ℕ, ◌≡◌, ◌⊎◌, String, eq_iff, true, false, some, List, [], ◌∷◌, arith, All}
use or3_intern.Base.Text.{trim_space, to_lower, to_upper, contains}
use or3_intern.SecureConn.Roles.{viewer, normalize_role}
use or3_intern.SecureConn.Claims.{SessionClaims}
use or3_intern.SecureConn.Authorization.{view, classify_action, authorize_action}
use or3_intern.SecureConn.Authorization.Safety.{authorize_action-Safe}

-- a method that reads
abbrev pub Reads : String → Type 0
Reads m = (m ≡ "") ⊎ (m ≡ "GET") ⊎ (m ≡ "HEAD") ⊎ (m ≡ "OPTIONS")

abbrev pub sensitive_paths : List String
sensitive_paths =
    "/terminal" ∷ "/secrets" ∷ "/secure-connections" ∷ "/devices" ∷ "/profiles" ∷ "/approvals"
    ∷ "/auth/policy" ∷ []

abbrev pub sensitive_tools : List String
sensitive_tools =
    "terminal" ∷ "shell" ∷ "exec" ∷ "secret" ∷ "write" ∷ "delete" ∷ "patch" ∷ "apply" ∷ []

-- no fragment of the list occurs in the text
abbrev pub Avoids : String → List String → Type 0
Avoids text fragments = All (λ s. contains text s ≡ false) fragments

classify_action_view :
    (method path tool : String)
    → (classify_action method path tool).class ≡ view
    → Reads (to_upper (trim_space method))
      × Avoids (to_lower (trim_space path)) sensitive_paths
      × Avoids (to_lower (trim_space tool)) sensitive_tools
unfolding classify_action
classify_action_view method path tool h =
    let m = to_upper (trim_space method) in
    (
      ground (arith, eq_iff m "", eq_iff m "GET", eq_iff m "HEAD", eq_iff m "OPTIONS"),
      ground arith,
      ground arith,
    )

-- Whatever the method, the path and the tool of a request, in any case and with spaces around: a viewer
-- that is let through at it sends a method that reads, to a path that holds none of the sensitive
-- fragments, for a tool whose name holds none.
pub viewer-Reads :
    (c : SessionClaims) (now : ℕ) (method path tool : String)
    → normalize_role c.role ≡ some viewer
    → (authorize_action c (classify_action method path tool) now).allowed ≡ true
    → Reads (to_upper (trim_space method))
      × Avoids (to_lower (trim_space path)) sensitive_paths
      × Avoids (to_lower (trim_space tool)) sensitive_tools
viewer-Reads c now method path tool role h =
    classify_action_view method path tool
      ((authorize_action-Safe c (classify_action method path tool) now h).viewer_views role)
