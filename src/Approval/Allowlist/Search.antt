-- ===== src/Approval/Allowlist/Search.antt =====
-- The search of the allowlist by pages is one scan of the candidates.
use or3_intern.Base.{
  Any, eq_iff, ◌⊎◌, ℕ, zero, suc, ◌+◌, ◌≤◌, ◌<◌, ◌≡◌, refl, sym, ap, ◌∙◌, ◌==◌, String, true, some,
  inl, inr, List, [], ◌∷◌, length, drop, take, arith, Bool-cases, Option-cases, ltb, if◌then◌else◌,
  ◌>>=◌, length-drop, ltb→lt,
}
use or3_intern.Approval.Types.{Keys, Codec, Scope, Matcher, Allowlist, Store}
use or3_intern.Approval.Allowlist.{
  is_candidate, scope_matches, applies, matcher_matches, scan_page, search, candidates,
  allowlist_match_keys, allowlist_matches,
}

plus : (n m : ℕ) → suc (m + n) ≡ suc m + n
plus n m = omega arith

module _ {ℓ} {A : Type ℓ} where
  drop_empty : (n : ℕ) → drop {A = A} n [] ≡ []
  drop_empty zero = refl
  drop_empty (suc n) = refl

  drop-drop : (n m : ℕ) (xs : List A) → drop n (drop m xs) ≡ drop (m + n) xs
  drop-drop n zero xs = ap (λ k. drop k xs) (omega arith)
  drop-drop n (suc m) [] = drop_empty n ∙ sym (drop_empty (suc m + n))
  drop-drop n (suc m) (x ∷ xs) = drop-drop n m xs ∙ ap (λ k. drop k (x ∷ xs)) (plus n m)

  drop_short : (n : ℕ) (xs : List A) → length (take n xs) < n → drop n xs ≡ []
  drop_short zero xs h = absurd (omega arith)
  drop_short (suc n) [] h = refl
  drop_short (suc n) (x ∷ xs) h = drop_short n xs (omega arith)

  length-take_short : (n : ℕ) (xs : List A) → n ≤ length (take n xs) → n ≤ length xs
  length-take_short zero xs h = omega arith
  length-take_short (suc n) [] h = omega arith
  length-take_short (suc n) (x ∷ xs) h = omega (arith, length-take_short n xs (omega arith))

module _ (c : Codec) (kind : String) (now : ℕ) (scope : Scope) (matcher : Matcher) where
  scan-take-drop :
      (n : ℕ) (rows : List Allowlist)
      → (do
        matched ← scan_page c kind now scope matcher (take n rows)
        if matched then some true else scan_page c kind now scope matcher (drop n rows))
        ≡ scan_page c kind now scope matcher rows
  unfolding scan_page
  scan-take-drop zero rows = refl
  scan-take-drop (suc n) [] = refl
  scan-take-drop (suc n) (row ∷ rows) = elim (Bool-cases (applies c now scope row)) [
    | inr skipped ↦ rw skipped (scan-take-drop n rows)
    | inl considered ↦ elim (Option-cases (matcher_matches c kind matcher row.matcher_json)) [
      | inl failed ↦ rw (considered, failed) refl
      | inr (matched, found) ↦ elim (Bool-cases matched) [
        | inl matches ↦ rw (considered, found, matches) refl
        | inr differs ↦ rw (considered, found, differs) (scan-take-drop n rows)
      ]
    ]
  ]

  -- the rounds of 200 rows that are left find what one scan of the rows left finds
  search_lem :
      (fuel offset : ℕ) (rows : List Allowlist)
      → length (drop offset rows) < fuel
      → search c fuel kind now scope matcher offset rows
        ≡ scan_page c kind now scope matcher (drop offset rows)
  unfolding search scan_page
  search_lem zero offset rows h = absurd (omega arith)
  search_lem (suc fuel) offset rows h =
      let left = drop offset rows in
      let page = take 200 left in
      let cut = scan-take-drop 200 left in
      elim (Option-cases (scan_page c kind now scope matcher page)) [
        | inl failed ↦ rw (search, failed) (rw failed at cut)
        | inr (matched, found) ↦ elim (Bool-cases matched) [
          | inl matches ↦ rw (search, found, matches) (rw (found, matches) at cut)
          | inr differs ↦ elim (Bool-cases (ltb (length page) 200)) [
            | inl last ↦
                rw (search, found, differs, last)
                  (sym (
                      ap (scan_page c kind now scope matcher)
                        (drop_short 200 left (ltb→lt _ _ last)))
                    ∙ rw (found, differs) at cut)
            | inr full ↦
                let longer = length-take_short 200 left (ground (arith, full)) in
                rw (search, found, differs, full)
                  (search_lem fuel (offset + 200) rows (
                      omega (
                        arith,
                        longer,
                        length-drop offset rows,
                        length-drop (offset + 200) rows,
                        h,
                      ))
                    ∙ sym (ap (scan_page c kind now scope matcher) (drop-drop 200 offset rows))
                    ∙ rw (found, differs) at cut)
          ]
        ]
      ]

  -- what a row has that lets a scan find a match
  abbrev Matches : Allowlist → Type 0
  Matches row =
      (applies c now scope row ≡ true)
      × (matcher_matches c kind matcher row.matcher_json ≡ some true)

  scan_page-Any :
      (rows : List Allowlist)
      → scan_page c kind now scope matcher rows ≡ some true
      → Any Matches rows
  unfolding scan_page
  scan_page-Any [] e = absurd (cc)
  scan_page-Any (row ∷ rows) e = elim (Bool-cases (applies c now scope row)) [
    | inr skipped ↦ inr (scan_page-Any rows (rw skipped at e))
    | inl considered ↦ elim (Option-cases (matcher_matches c kind matcher row.matcher_json)) [
      | inl failed ↦ absurd (cc (rw (considered, failed) at e))
      | inr (matched, found) ↦ elim (Bool-cases matched) [
        | inl matches ↦ inl (considered, found ∙ ap some matches)
        | inr differs ↦ inr (scan_page-Any rows (rw (considered, found, differs) at e))
      ]
    ]
  ]

  -- The search of an allowlist for an action, which takes the rows that pass the index in pages of 200,
  -- is one scan of all of them, from the newest to the first that matches or fails to be read.
  pub allowlist_matches_lem :
      (s : Store)
      → allowlist_matches c now kind scope matcher s
        ≡ scan_page c kind now scope matcher
            (candidates kind now (allowlist_match_keys c kind scope matcher) s.allowlists)
  unfolding allowlist_matches
  allowlist_matches_lem s =
      let rows = candidates kind now (allowlist_match_keys c kind scope matcher) s.allowlists in
      search_lem (suc (length rows)) 0 rows (omega arith)

  -- a row that lets an action run
  pub record Allows (row : Allowlist) : Type 0 where
    pub same_domain : row.domain ≡ kind
    pub enabled : row.disabled_at ≡ 0
    pub unexpired : (row.expires_at ≡ 0) ⊎ (now < row.expires_at)
    pub in_scope : scope_matches c scope row.scope_json ≡ true
    pub matches : matcher_matches c kind matcher row.matcher_json ≡ some true

  candidate-Allows :
      (q : Keys) (row : Allowlist) → is_candidate kind now q row ≡ true → Matches row → Allows row
  unfolding is_candidate applies
  candidate-Allows q row p m = record {
    same_domain = ground (arith, eq_iff row.domain kind);
    enabled = ground arith;
    unexpired = elim (Bool-cases (row.expires_at == 0)) [
      | inl forever ↦ inl (ground arith)
      | inr limited ↦ inr (ground arith)
    ];
    in_scope = ground (arith, m.0);
    matches = m.1;
  }

  candidates-Allows :
      (q : Keys) (t : List (ℕ × Allowlist))
      → Any Matches (candidates kind now q t)
      → Any (λ p. Allows p.1) t
  unfolding candidates
  candidates-Allows q [] h = h
  candidates-Allows q ((id, row) ∷ t) h = elim (Bool-cases (is_candidate kind now q row)) [
    | inr filtered ↦ inr (candidates-Allows q t (rw filtered at h))
    | inl passed ↦ elim (rw (candidates, passed) at h) [
      | inl m ↦ inl (candidate-Allows q row passed m)
      | inr rest ↦ inr (candidates-Allows q t rest)
    ]
  ]

  -- An allowlist search that matches has found a row of the store for the action's type that is
  -- enabled, not expired, whose scope takes in the action's and whose matcher matches it.
  pub allowlist_matches-Allows :
      (s : Store)
      → allowlist_matches c now kind scope matcher s ≡ some true
      → Any (λ p. Allows p.1) s.allowlists
  allowlist_matches-Allows s e =
      candidates-Allows (allowlist_match_keys c kind scope matcher) s.allowlists
        (scan_page-Any _ (sym (allowlist_matches_lem s) ∙ e))
