-- ===== src/Base/Table.antt =====
-- A table of the SQLite store: its rows under their primary keys, the newest first, so that the list's
-- order is `ORDER BY id DESC`.
use mathlib.Core.Path.{subst}
use or3_intern.Base.{
  ap, All, Distinct, ◌≢◌, ◌&&◌, inl, inr, Bool-cases, ℕ, suc, ◌<◌, ◌≡◌, refl, ◌==◌, ==_iff, Bool,
  true, Option, none, some, List, [], ◌∷◌, arith, if◌then◌else◌,
}

module _ {ℓ} {V : Type ℓ} where
  -- SELECT … WHERE id=?
  unfoldable pub find : ℕ → List (ℕ × V) → Option V
  find id [] = none
  find id ((j, v) ∷ t) = if j == id then some v else find id t

  -- SELECT … WHERE … ORDER BY id DESC LIMIT 1
  unfoldable pub find_where : (V → Bool) → List (ℕ × V) → Option (ℕ × V)
  find_where p [] = none
  find_where p ((j, v) ∷ t) = if p v then some (j, v) else find_where p t

  -- UPDATE … SET … WHERE …
  unfoldable pub update : (ℕ → V → Bool) → (V → V) → List (ℕ × V) → List (ℕ × V)
  update c f [] = []
  update c f ((j, v) ∷ t) = (j, if c j v then f v else v) ∷ update c f t

  -- the number of rows that an UPDATE affects
  unfoldable pub affected : (ℕ → V → Bool) → List (ℕ × V) → ℕ
  affected c [] = 0
  affected c ((j, v) ∷ t) = if c j v then suc (affected c t) else affected c t

  pub find-insert_other :
      (n j : ℕ) (v : V) (t : List (ℕ × V)) → j < n → find j ((n, v) ∷ t) ≡ find j t
  unfolding find
  find-insert_other n j v t h = ground arith

  pub find-insert_same : (n : ℕ) (v : V) (t : List (ℕ × V)) → find n ((n, v) ∷ t) ≡ some v
  unfolding find
  find-insert_same n v t = ground arith

  -- the row of an updated table, where there was one
  pub find-update :
      (c : ℕ → V → Bool) (f : V → V) (j : ℕ) (t : List (ℕ × V)) (v : V)
      → find j t ≡ some v
      → find j (update c f t) ≡ some (if c j v then f v else v)
  unfolding find update
  find-update c f j [] v e = absurd (cc)
  find-update c f j ((i, w) ∷ t) v e = elim (Bool-cases (i == j)) [
    | inl same ↦ ground (arith, ==_iff i j)
    | inr differs ↦ rw differs (find-update c f j t v (rw differs at e))
  ]

  -- every row of an updated table comes of one
  pub find-update_inv :
      (c : ℕ → V → Bool) (f : V → V) (j : ℕ) (t : List (ℕ × V)) (w : V)
      → find j (update c f t) ≡ some w
      → (v : V) × (find j t ≡ some v) × (w ≡ (if c j v then f v else v))
  unfolding find update
  find-update_inv c f j [] w e = absurd (cc)
  find-update_inv c f j ((i, u) ∷ t) w e = elim (Bool-cases (i == j)) [
    | inl same ↦ (u, ground arith, ground (arith, ==_iff i j))
    | inr differs ↦
        let (v, found, is) = find-update_inv c f j t w (rw differs at e) in
        (v, rw differs found, is)
  ]

  -- an update of a row that is there affects a row
  pub affected_found :
      (c : ℕ → V → Bool) (j : ℕ) (t : List (ℕ × V)) (v : V)
      → find j t ≡ some v
      → c j v ≡ true
      → 0 < affected c t
  unfolding find affected
  affected_found c j [] v e h = absurd (cc)
  affected_found c j ((i, w) ∷ t) v e h = ground (arith, ==_iff i j, affected_found c j t v)

  abbrev pub ids : List (ℕ × V) → List ℕ
  ids [] = []
  ids ((j, v) ∷ t) = j ∷ ids t

  pub ids-update : (c : ℕ → V → Bool) (f : V → V) (t : List (ℕ × V)) → ids (update c f t) ≡ ids t
  unfolding update
  ids-update c f [] = refl
  ids-update c f ((j, v) ∷ t) = ap (λ js. j ∷ js) (ids-update c f t)

  pub affected_none :
      (p : V → Bool) (id : ℕ) (t : List (ℕ × V))
      → All (λ j. id ≢ j) (ids t)
      → affected (λ j v. j == id && p v) t ≡ 0
  unfolding affected
  affected_none p id [] h = refl
  affected_none p id ((j, v) ∷ t) h = ground (arith, h.0, affected_none p id t h.1)

  -- where the primary keys are distinct, an update by one affects a row only if that row is there
  pub affected_positive :
      (p : V → Bool) (id : ℕ) (t : List (ℕ × V))
      → Distinct (ids t)
      → 0 < affected (λ j v. j == id && p v) t
      → (v : V) × (find id t ≡ some v) × (p v ≡ true)
  unfolding affected find
  affected_positive p id [] d h = absurd (omega arith)
  affected_positive p id ((j, v) ∷ t) d h = elim (Bool-cases (j == id)) [
    | inl same ↦ elim (Bool-cases (p v)) [
      | inl holds ↦ (v, ground arith, holds)
      | inr fails ↦
          let none_left =
            affected_none p id t
              (subst (λ i. All (λ y. i ≢ y) (ids t)) ((==_iff j id).0 same) d.0) in
          absurd (ground (arith, none_left))
    ]
    | inr differs ↦
        let (w, found, holds) = affected_positive p id t d.1 (ground arith) in
        (w, rw differs found, holds)
  ]
