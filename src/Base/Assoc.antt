-- ===== src/Base/Assoc.antt =====
-- A Go map with text keys, as an association list. No definition that uses it depends on the order of
-- the entries, but for ties that Go's random order of iteration leaves open as well.
use mathlib.Core.Path.{subst}
use mathlib.Core.Option.{some-injective}
use or3_intern.Base.{
  inl, inr, Bool-cases, ◌≤◌, ◌≡◌, refl, String, str_eq, eq_iff, Option, none, some, List, [], ◌∷◌,
  length, All, Distinct, ◌≢◌, ◌<◌, arith, if◌then◌else◌,
}

module _ {ℓ} {V : Type ℓ} where
  unfoldable pub lookup : String → List (String × V) → Option V
  lookup key [] = none
  lookup key ((j, v) ∷ entries) = if str_eq j key then some v else lookup key entries

  -- entries[key] = v
  unfoldable pub insert : String → V → List (String × V) → List (String × V)
  insert key v [] = (key, v) ∷ []
  insert key v ((j, w) ∷ entries) =
      if str_eq j key then (key, v) ∷ entries else (j, w) ∷ insert key v entries

  -- delete(entries, key)
  unfoldable pub delete : String → List (String × V) → List (String × V)
  delete key [] = []
  delete key ((j, w) ∷ entries) =
      let rest = delete key entries in if str_eq j key then rest else (j, w) ∷ rest

  pub lookup-insert :
      (key j : String) (v : V) (entries : List (String × V))
      → lookup j (insert key v entries) ≡ (if str_eq key j then some v else lookup j entries)
  unfolding lookup insert
  lookup-insert key j v [] = refl
  lookup-insert key j v ((i, w) ∷ entries) =
      ground (arith, eq_iff key j, eq_iff i key, eq_iff i j, lookup-insert key j v entries)

  pub lookup-delete :
      (key j : String) (entries : List (String × V))
      → lookup j (delete key entries) ≡ (if str_eq key j then none else lookup j entries)
  unfolding lookup delete
  lookup-delete key j [] = ground arith
  lookup-delete key j ((i, w) ∷ entries) =
      ground (arith, eq_iff key j, eq_iff i key, eq_iff i j, lookup-delete key j entries)

  pub length-delete :
      (key : String) (entries : List (String × V)) → length (delete key entries) ≤ length entries
  unfolding delete
  length-delete key [] = omega arith
  length-delete key ((j, w) ∷ entries) = ground (arith, length-delete key entries)

  -- Every value of the map satisfies `P`.
  abbrev pub Values {κ} : (V → Type κ) → List (String × V) → Type κ
  Values P [] = Unit
  Values P ((k, v) ∷ m) = P v × Values P m

module _ {ℓ κ} {V : Type ℓ} (P : V → Type κ) where
  pub Values-lookup :
      (k : String) (m : List (String × V)) {v : V} → Values P m → lookup k m ≡ some v → P v
  unfolding lookup
  Values-lookup k [] h e = absurd (cc)
  Values-lookup k ((j, w) ∷ m) {v = v} h e = elim (Bool-cases (str_eq j k)) [
    | inl same ↦ subst P (some-injective w v (rw same at e)) h.0
    | inr differs ↦ Values-lookup k m {v = v} h.1 (rw differs at e)
  ]

  pub Values-insert :
      (k : String) (v : V) (m : List (String × V)) → P v → Values P m → Values P (insert k v m)
  unfolding insert
  Values-insert k v [] p h = (p, tt)
  Values-insert k v ((j, w) ∷ m) p h = elim (Bool-cases (str_eq j k)) [
    | inl same ↦ rw same (p, h.1)
    | inr differs ↦ rw differs (h.0, Values-insert k v m p h.1)
  ]

  pub Values-delete : (k : String) (m : List (String × V)) → Values P m → Values P (delete k m)
  unfolding delete
  Values-delete k [] h = tt
  Values-delete k ((j, w) ∷ m) h = elim (Bool-cases (str_eq j k)) [
    | inl same ↦ rw same (Values-delete k m h.1)
    | inr differs ↦ rw differs (h.0, Values-delete k m h.1)
  ]

module _ {ℓ} {V : Type ℓ} where
  abbrev pub keys : List (String × V) → List String
  keys [] = []
  keys ((k, v) ∷ m) = k ∷ keys m

  pub All-keys-insert :
      (P : String → Type 0) (k : String) (v : V) (m : List (String × V))
      → P k
      → All P (keys m)
      → All P (keys (insert k v m))
  unfolding insert
  All-keys-insert P k v [] p h = (p, tt)
  All-keys-insert P k v ((j, w) ∷ m) p h = elim (Bool-cases (str_eq j k)) [
    | inl same ↦ rw same (p, h.1)
    | inr differs ↦ rw differs (h.0, All-keys-insert P k v m p h.1)
  ]

  pub All-keys-delete :
      (P : String → Type 0) (k : String) (m : List (String × V))
      → All P (keys m)
      → All P (keys (delete k m))
  unfolding delete
  All-keys-delete P k [] h = tt
  All-keys-delete P k ((j, w) ∷ m) h = elim (Bool-cases (str_eq j k)) [
    | inl same ↦ rw same (All-keys-delete P k m h.1)
    | inr differs ↦ rw differs (h.0, All-keys-delete P k m h.1)
  ]

  pub Distinct-keys-insert :
      (k : String) (v : V) (m : List (String × V))
      → Distinct (keys m)
      → Distinct (keys (insert k v m))
  unfolding insert
  Distinct-keys-insert k v [] h = (tt, tt)
  Distinct-keys-insert k v ((j, w) ∷ m) h = elim (Bool-cases (str_eq j k)) [
    | inl same ↦ rw same (subst (λ i. All (λ y. i ≢ y) (keys m)) ((eq_iff j k).0 same) h.0, h.1)
    | inr differs ↦ rw differs (
      All-keys-insert (λ y. j ≢ y) k v m (λ e. ground (arith, eq_iff j k)) h.0,
      Distinct-keys-insert k v m h.1,
    )
  ]

  pub Distinct-keys-delete :
      (k : String) (m : List (String × V)) → Distinct (keys m) → Distinct (keys (delete k m))
  unfolding delete
  Distinct-keys-delete k [] h = tt
  Distinct-keys-delete k ((j, w) ∷ m) h = elim (Bool-cases (str_eq j k)) [
    | inl same ↦ rw same (Distinct-keys-delete k m h.1)
    | inr differs ↦ rw differs (All-keys-delete (λ y. j ≢ y) k m h.0, Distinct-keys-delete k m h.1)
  ]

  -- a key that is found stands in the map
  pub All-keys-lookup :
      (P : String → Type 0) (k : String) (m : List (String × V)) {v : V}
      → All P (keys m)
      → lookup k m ≡ some v
      → P k
  unfolding lookup
  All-keys-lookup P k [] h e = absurd (cc)
  All-keys-lookup P k ((j, w) ∷ m) {v = v} h e = elim (Bool-cases (str_eq j k)) [
    | inl same ↦ subst P ((eq_iff j k).0 same) h.0
    | inr differs ↦ All-keys-lookup P k m {v = v} h.1 (rw differs at e)
  ]

  -- deleting a key that is found makes the map smaller
  pub length-delete_found :
      (k : String) (m : List (String × V)) {v : V}
      → lookup k m ≡ some v
      → length (delete k m) < length m
  unfolding lookup delete
  length-delete_found k [] e = absurd (cc)
  length-delete_found k ((j, w) ∷ m) {v = v} e = elim (Bool-cases (str_eq j k)) [
    | inl same ↦ rw same (omega (arith, length-delete k m))
    | inr differs ↦ rw differs (omega (arith, length-delete_found k m {v = v} (rw differs at e)))
  ]
