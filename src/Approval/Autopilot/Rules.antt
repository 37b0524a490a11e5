-- ===== src/Approval/Autopilot/Rules.antt =====
-- The targets that the rules of the autopilot leave over (internal/approval/runner_autopilot.go).
use text.Mathlib.Text.{starts_with}
use or3_intern.Base.{
  ap, ◌≡◌, refl, ◌≢◌, String, str_eq, eq_iff, Bool, false, ◌⊎◌, inl, inr, arith, Bool-cases, List,
  [], ◌∷◌, All, All-map, any,
}
use or3_intern.Base.Text.{to_lower, contains, member}
use or3_intern.Base.FilePath.{base, ends_with}
use or3_intern.Approval.Autopilot.{
  sensitive_target, broad_write, path_segments, is_sensitive_segment, system_path,
  sensitive_basename, sensitive_keyword, has_no_segment,
}

-- The first segments are neither etc nor var/db, whatever the case of their letters.
abbrev pub IsOutside : List String → Type 0
IsOutside [] = Unit {0}
IsOutside (first ∷ []) = to_lower first ≢ "etc"
IsOutside (first ∷ second ∷ rest) =
    (to_lower first ≢ "etc") × ((to_lower first ≢ "var") ⊎ (to_lower second ≢ "db"))

-- a target that no rule names
pub record Unnamed (target : String) : Type 0 where
  pub directories :
      All
        (λ segment. All (λ d. to_lower segment ≢ d) (".ssh" ∷ ".gnupg" ∷ ".aws" ∷ ".config" ∷ []))
        (path_segments target)
  pub outside : IsOutside (path_segments target)
  pub file :
      All
        (λ name. to_lower (base target) ≢ name)
        (".env" ∷ "approvals.key" ∷ "config.json" ∷ "config.yaml" ∷ "config.yml" ∷ [])
  pub no_env : starts_with (to_lower (base target)) ".env." ≡ false
  pub words :
      All
        (λ word. contains (to_lower (base target)) word ≡ false)
        ("secret" ∷ "token" ∷ "credential" ∷ "keychain" ∷ "approval" ∷ "sandbox" ∷ "security" ∷ [])

-- Read, or written outside the mode `review` to a target without these endings.
abbrev pub IsMild : String → String → String → Type 0
IsMild access target mode =
    (access ≡ "read")
    ⊎ ((access ≡ "write")
        × (mode ≢ "review")
        × All (λ suffix. ends_with target suffix ≡ false) ("/" ∷ "/.." ∷ "/." ∷ "/*" ∷ []))

-- what the autopilot may approve; a path of slashes, blanks and dots alone has no segments
pub record Unlisted (kind access target mode : String) : Type 0 where
  pub filesystem : kind ≡ "filesystem"
  pub narrow : (target ≢ "") × (target ≢ ".") × (target ≢ "/")
  pub unnamed : (path_segments target ≡ []) ⊎ Unnamed target
  pub mild : IsMild access target mode

any-none : (p : String → Bool) (xs : List String) → any p xs ≡ false → All (λ x. p x ≡ false) xs
any-none p [] e = tt
any-none p (x ∷ xs) e = (ground arith, any-none p xs (ground arith))

member-none : (s : String) (xs : List String) → member s xs ≡ false → All (λ x. s ≢ x) xs
unfolding member
member-none s [] e = tt
member-none s (x ∷ xs) e = (λ same. ground (arith, eq_iff x s), member-none s xs (ground arith))

directories_unnamed :
    (segments : List String)
    → any is_sensitive_segment segments ≡ false
    → All
        (λ segment. All (λ d. to_lower segment ≢ d) (".ssh" ∷ ".gnupg" ∷ ".aws" ∷ ".config" ∷ []))
        segments
unfolding is_sensitive_segment
directories_unnamed segments e =
    All-map (λ x. is_sensitive_segment x ≡ false)
      (λ x h. member-none (to_lower x) (".ssh" ∷ ".gnupg" ∷ ".aws" ∷ ".config" ∷ []) h) segments
      (any-none is_sensitive_segment segments e)

segments-IsOutside : (segments : List String) → system_path segments ≡ false → IsOutside segments
unfolding system_path
segments-IsOutside [] e = tt
segments-IsOutside (first ∷ []) e = λ h. ground (arith, eq_iff (to_lower first) "etc")
segments-IsOutside (first ∷ second ∷ rest) e = (
  λ h. ground (arith, eq_iff (to_lower first) "etc"),
  elim (Bool-cases (str_eq (to_lower first) "var")) [
    | inl under_var ↦ inr (λ h. ground (arith, eq_iff (to_lower second) "db"))
    | inr elsewhere ↦ inl (λ h. ground (arith, eq_iff (to_lower first) "var"))
  ],
)

-- the tests of a path that has a segment
tests_failed :
    (target : String)
    → has_no_segment (path_segments target) ≡ false
    → sensitive_target target ≡ false
    → (any is_sensitive_segment (path_segments target) ≡ false)
      × (system_path (path_segments target) ≡ false)
      × (sensitive_basename (to_lower (base target)) ≡ false)
      × (sensitive_keyword (to_lower (base target)) ≡ false)
unfolding sensitive_target
tests_failed target some_segment e = (ground arith, ground arith, ground arith, ground arith)

tests-Unnamed :
    (target : String)
    → has_no_segment (path_segments target) ≡ false
    → sensitive_target target ≡ false
    → Unnamed target
unfolding sensitive_basename sensitive_keyword
tests-Unnamed target some_segment e =
    let name = to_lower (base target) in
    let (directories, outside, file, words) = tests_failed target some_segment e in
    record {
      directories = directories_unnamed (path_segments target) directories;
      outside = segments-IsOutside (path_segments target) outside;
      file =
          member-none name
            (".env" ∷ "approvals.key" ∷ "config.json" ∷ "config.yaml" ∷ "config.yml" ∷ [])
            (ground arith);
      no_env = ground arith;
      words =
          any-none (λ word. contains name word)
            ("secret" ∷ "token" ∷ "credential" ∷ "keychain" ∷ "approval" ∷ "sandbox" ∷ "security"
              ∷ [])
            words;
    }

pub insensitive-Unnamed :
    (target : String)
    → sensitive_target target ≡ false
    → (path_segments target ≡ []) ⊎ Unnamed target
unfolding has_no_segment
insensitive-Unnamed target e = go (path_segments target) refl
  where
    go :
        (segments : List String)
        → path_segments target ≡ segments
        → (path_segments target ≡ []) ⊎ Unnamed target
    go [] is = inl is
    go (segment ∷ segments) is = inr (tests-Unnamed target (ap has_no_segment is) e)

pub narrow_write :
    (target : String)
    → broad_write target ≡ false
    → All (λ suffix. ends_with target suffix ≡ false) ("/" ∷ "/.." ∷ "/." ∷ "/*" ∷ [])
unfolding broad_write
narrow_write target e =
    any-none (λ suffix. ends_with target suffix) ("/" ∷ "/.." ∷ "/." ∷ "/*" ∷ []) (ground arith)
