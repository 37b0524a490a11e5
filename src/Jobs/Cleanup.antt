-- ===== src/Jobs/Cleanup.antt =====
-- What the cleanup of the registry takes away and what it leaves.
use or3_intern.Base.{
  ℕ, zero, suc, ◌≤◌, ◌≡◌, refl, ◌∙◌, ◌≢◌, ◌⊎◌, inl, inr, String, str_eq, eq_iff, true, false, ◌||◌,
  none, some, List, [], ◌∷◌, length, All, Distinct, leb, ltb, arith, Bool-cases, if◌then◌else◌,
}
use or3_intern.Base.Assoc.{
  lookup, delete, keys, Values, lookup-delete, All-keys-lookup, All-keys-delete,
  Distinct-keys-delete, length-delete_found,
}
use or3_intern.Jobs.Upkeep.{evict-Values}
use or3_intern.Jobs.Registry.{
  Entry, Registry, is_stale, drop_stale, consider, find_oldest, evict, cleanup,
}

abbrev pub IsTerminal : Entry → Type 0
IsTerminal e = e.terminal ≡ true

abbrev pub IsActive : Entry → Type 0
IsActive e = e.terminal ≡ false

consider-cases :
    (best : String × ℕ) (id : String) (e : Entry)
    → ((consider best id e).0 ≡ best.0) ⊎ (((consider best id e).0 ≡ id) × IsTerminal e)
unfolding consider
consider-cases (oldest_id, oldest) id e = elim (Bool-cases e.terminal) [
  | inl over ↦ elim (Bool-cases (str_eq oldest_id "" || ltb e.updated_at oldest)) [
    | inl better ↦ inr (ground arith, over)
    | inr worse ↦ inl (ground arith)
  ]
  | inr active ↦ inl (ground arith)
]

-- the eviction's candidate: the one it started from, or a terminal job of the map
find_oldest-cases :
    (best : String × ℕ) (m : List (String × Entry))
    → Distinct (keys m)
    → ((find_oldest best m).0 ≡ best.0)
      ⊎ ((e : Entry) × (lookup (find_oldest best m).0 m ≡ some e) × IsTerminal e)
unfolding find_oldest
find_oldest-cases best [] d = inl refl
find_oldest-cases best ((id, e) ∷ m) d = elim (find_oldest-cases (consider best id e) m d.1) [
  | inl kept ↦ elim (consider-cases best id e) [
    | inl same ↦ inl (kept ∙ same)
    | inr (chosen, over) ↦
        inr (
          e,
          unfold lookup in ground (arith, eq_iff id (find_oldest (consider best id e) m).0),
          over,
        )
  ]
  | inr (e', found, over) ↦ inr (
    e',
    unfold lookup in
        ground (
          arith,
          eq_iff id (find_oldest (consider best id e) m).0,
          All-keys-lookup (λ y. id ≢ y) (find_oldest (consider best id e) m).0 m {v = e'} d.0 found,
        ),
    over,
  )
]

-- where no key is empty, an empty candidate means that every job is active
find_oldest-empty :
    (best : String × ℕ) (m : List (String × Entry))
    → All (λ k. k ≢ "") (keys m)
    → (find_oldest best m).0 ≡ ""
    → (best.0 ≡ "") × Values IsActive m
unfolding find_oldest consider
find_oldest-empty best [] h e = (e, tt)
find_oldest-empty (oldest_id, oldest) ((id, e) ∷ m) h none_found =
    let (empty, rest) = find_oldest-empty (consider (oldest_id, oldest) id e) m h.1 none_found in
    (ground (arith, h.0, eq_iff oldest_id ""), (ground (arith, h.0, eq_iff oldest_id ""), rest))

drop_stale-keys :
    (P : String → Type 0) (now retention : ℕ) (m : List (String × Entry))
    → All P (keys m)
    → All P (keys (drop_stale now retention m))
unfolding drop_stale
drop_stale-keys P now retention [] h = tt
drop_stale-keys P now retention ((id, e) ∷ m) h = elim (Bool-cases (is_stale now retention e)) [
  | inl stale ↦ rw stale (drop_stale-keys P now retention m h.1)
  | inr fresh ↦ rw fresh (h.0, drop_stale-keys P now retention m h.1)
]

drop_stale-Distinct :
    (now retention : ℕ) (m : List (String × Entry))
    → Distinct (keys m)
    → Distinct (keys (drop_stale now retention m))
unfolding drop_stale
drop_stale-Distinct now retention [] h = tt
drop_stale-Distinct now retention ((id, e) ∷ m) h = elim (Bool-cases (is_stale now retention e)) [
  | inl stale ↦ rw stale (drop_stale-Distinct now retention m h.1)
  | inr fresh ↦
      rw fresh
        (drop_stale-keys (λ k. id ≢ k) now retention m h.0, drop_stale-Distinct now retention m h.1)
]

drop_stale_fresh :
    (now retention : ℕ) (m : List (String × Entry))
    → Values (λ e. is_stale now retention e ≡ false) (drop_stale now retention m)
unfolding drop_stale
drop_stale_fresh now retention [] = tt
drop_stale_fresh now retention ((id, e) ∷ m) = elim (Bool-cases (is_stale now retention e)) [
  | inl stale ↦ rw stale (drop_stale_fresh now retention m)
  | inr fresh ↦ rw fresh (fresh, drop_stale_fresh now retention m)
]

lookup-drop_stale :
    (now retention : ℕ) (id : String) (m : List (String × Entry)) {e : Entry}
    → lookup id m ≡ some e
    → is_stale now retention e ≡ false
    → lookup id (drop_stale now retention m) ≡ some e
unfolding drop_stale lookup
lookup-drop_stale now retention id [] found fresh = absurd (cc)
lookup-drop_stale now retention id ((j, x) ∷ m) {e = e} found fresh =
    ground (arith, lookup-drop_stale now retention id m {e = e}, is_stale now retention x)

lookup-evict :
    (fuel max : ℕ) (id : String) (m : List (String × Entry)) (e : Entry)
    → Distinct (keys m)
    → lookup id m ≡ some e
    → IsActive e
    → lookup id (evict fuel max m) ≡ some e
unfolding evict
lookup-evict zero max id m e d found active = found
lookup-evict (suc fuel) max id m e d found active =
    let c = (find_oldest ("", 0) m).0 in
    elim (Bool-cases (leb (length m) max)) [
      | inl fits ↦ rw fits found
      | inr over ↦ elim (Bool-cases (str_eq c "")) [
        | inl nobody ↦ rw (over, nobody) found
        | inr named ↦
            rw (over, named)
              (lookup-evict fuel max id (delete c m) e (Distinct-keys-delete c m d)
                (rw (lookup-delete c id m) (other c (find_oldest-cases ("", 0) m d) named)) active)
      ]
    ]
  where
    other :
        (c : String)
        → (c ≡ "") ⊎ ((x : Entry) × (lookup c m ≡ some x) × IsTerminal x)
        → str_eq c "" ≡ false
        → (if str_eq c id then none else lookup id m) ≡ some e
    other c (inl empty) named = absurd (ground (arith, eq_iff c ""))
    other c (inr (x, here, over)) named = elim (Bool-cases (str_eq c id)) [
      | inl same ↦ absurd (cc (here, found, over, active, (eq_iff c id).0 same))
      | inr differs ↦ rw differs found
    ]

evict_fits :
    (fuel max : ℕ) (m : List (String × Entry))
    → length m ≤ fuel
    → Distinct (keys m)
    → All (λ k. k ≢ "") (keys m)
    → (length (evict fuel max m) ≤ max) ⊎ Values IsActive (evict fuel max m)
unfolding evict
evict_fits zero max [] enough d named = inl (omega arith)
evict_fits zero max (x ∷ m) enough d named = absurd (omega arith)
evict_fits (suc fuel) max m enough d named =
    let c = (find_oldest ("", 0) m).0 in
    elim (Bool-cases (leb (length m) max)) [
      | inl fits ↦ rw fits (inl (ground arith))
      | inr over ↦ elim (Bool-cases (str_eq c "")) [
        | inl nobody ↦
            rw (over, nobody) (inr (find_oldest-empty ("", 0) m named ((eq_iff c "").0 nobody)).1)
        | inr found ↦
            rw (over, found)
              (evict_fits fuel max (delete c m) (shorter c (find_oldest-cases ("", 0) m d) found)
                (Distinct-keys-delete c m d) (All-keys-delete (λ k. k ≢ "") c m named))
      ]
    ]
  where
    shorter :
        (c : String)
        → (c ≡ "") ⊎ ((x : Entry) × (lookup c m ≡ some x) × IsTerminal x)
        → str_eq c "" ≡ false
        → length (delete c m) ≤ fuel
    shorter c (inl empty) found = absurd (ground (arith, eq_iff c ""))
    shorter c (inr (x, here, over)) found = omega (arith, length-delete_found c m {v = x} here)

pub record CleanedUp (now : ℕ) (r r' : Registry) : Type 0 where
  pub keeps_active :
      (id : String) (e : Entry)
      → lookup id r.jobs ≡ some e
      → IsActive e
      → lookup id r'.jobs ≡ some e
  pub drops_stale : Values (λ e. is_stale now r.retention e ≡ false) r'.jobs
  pub fits : (length r'.jobs ≤ r.max_tracked) ⊎ Values IsActive r'.jobs

-- In a registry whose identifiers are distinct, as a map's keys are, and not empty, a cleanup keeps
-- every job that is not terminal, keeps no terminal job whose last update is longer ago than the
-- retention, and brings the number of jobs down to the limit unless all that are left are active.
pub cleanup-CleanedUp :
    (now : ℕ) (r : Registry)
    → Distinct (keys r.jobs)
    → All (λ k. k ≢ "") (keys r.jobs)
    → CleanedUp now r (cleanup now r)
unfolding cleanup
cleanup-CleanedUp now r d named =
    let m = drop_stale now r.retention r.jobs in
    let d' = drop_stale-Distinct now r.retention r.jobs d in
    record {
      keeps_active = λ id e found active.
          lookup-evict (length m) r.max_tracked id m e d'
            (lookup-drop_stale now r.retention id r.jobs {e = e} found
              (unfold is_stale in rw active))
            active;
      drops_stale =
          evict-Values (λ e. is_stale now r.retention e ≡ false) (length m) r.max_tracked m
            (drop_stale_fresh now r.retention r.jobs);
      fits =
          evict_fits (length m) r.max_tracked m (omega arith) d'
            (drop_stale-keys (λ k. k ≢ "") now r.retention r.jobs named);
    }
