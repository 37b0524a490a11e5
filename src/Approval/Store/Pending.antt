-- ===== src/Approval/Store/Pending.antt =====
-- Asking for approval: an open request is found again, and otherwise one is made.
use mathlib.Core.Path.{subst}
use mathlib.Core.Option.{some-injective}
use or3_intern.Base.{
  ℕ, ◌+◌, ◌≤◌, ◌<◌, ◌≡◌, refl, Bool, true, false, ◌&&◌, none, some, ◌⊎◌, inl, inr, List, [], ◌∷◌,
  Any, All, sym, arith, Bool-cases, Option-cases, ltb,
}
use or3_intern.Base.Table.{find_where}
use or3_intern.Approval.Types.{Request, Store, Error, unique_constraint}
use or3_intern.Approval.Store.{
  is_pending, same_subject, find_pending, is_duplicate, create_or_get_pending,
}

module _ {V : Type 0} (p : V → Bool) where
  find_where-holds : (t : List (ℕ × V)) (row : ℕ × V) → find_where p t ≡ some row → p row.1 ≡ true
  unfolding find_where
  find_where-holds [] row e = absurd (cc)
  find_where-holds ((j, v) ∷ t) row e = elim (Bool-cases (p v)) [
    | inl holds ↦
        subst (λ (r : ℕ × V). p r.1 ≡ true) (some-injective (j, v) row (rw holds at e)) holds
    | inr fails ↦ find_where-holds t row (rw fails at e)
  ]

  find_where-Mem :
      (t : List (ℕ × V)) (row : ℕ × V) → find_where p t ≡ some row → Any (λ r. row ≡ r) t
  unfolding find_where
  find_where-Mem [] row e = absurd (cc)
  find_where-Mem ((j, v) ∷ t) row e = elim (Bool-cases (p v)) [
    | inl holds ↦ inl (sym (some-injective (j, v) row (rw holds at e)))
    | inr fails ↦ inr (find_where-Mem t row (rw fails at e))
  ]

  -- where nothing is found, nothing satisfies `p`
  find_where-none :
      (t : List (ℕ × V)) → find_where p t ≡ none → All (λ (r : ℕ × V). p r.1 ≡ false) t
  unfolding find_where
  find_where-none [] e = tt
  find_where-none ((j, v) ∷ t) e = elim (Bool-cases (p v)) [
    | inl holds ↦ absurd (cc (rw holds at e))
    | inr fails ↦ (fails, find_where-none t (rw fails at e))
  ]

  -- where nothing satisfies `p`, a row that is found otherwise does not
  find_where-fails :
      (q : V → Bool) (t : List (ℕ × V)) (row : ℕ × V)
      → find_where p t ≡ none
      → find_where q t ≡ some row
      → p row.1 ≡ false
  unfolding find_where
  find_where-fails q [] row e f = absurd (cc)
  find_where-fails q ((j, v) ∷ t) row e f = elim (Bool-cases (p v)) [
    | inl holds ↦ absurd (cc (rw holds at e))
    | inr fails ↦ elim (Bool-cases (q v)) [
      | inl found ↦
          subst (λ (r : ℕ × V). p r.1 ≡ false) (some-injective (j, v) row (rw found at f)) fails
      | inr passed ↦ find_where-fails q t row (rw fails at e) (rw passed at f)
    ]
  ]

-- an open request for the same subject that has not expired
pub record Waits (input : Request) (now : ℕ) (r : Request) : Type 0 where
  pub same : same_subject r input ≡ true
  pub open_row : is_pending r.status ≡ true
  pub unexpired : now < r.expires_at

-- one that has, and was not resolved
pub record Stale (input : Request) (now : ℕ) (r : Request) : Type 0 where
  pub same : same_subject r input ≡ true
  pub open_row : is_pending r.status ≡ true
  pub lapsed : r.expires_at ≤ now

abbrev pub same_pending : Request → Request → Bool
same_pending input r = same_subject r input && is_pending r.status

abbrev pub fresh_pending : Request → ℕ → Request → Bool
fresh_pending input now r = same_subject r input && is_pending r.status && ltb now r.expires_at

find_pending-Waits :
    (input : Request) (now : ℕ) (t : List (ℕ × Request)) (row : ℕ × Request)
    → find_pending input now t ≡ some row
    → Waits input now row.1
unfolding find_pending
find_pending-Waits input now t row there =
    let fresh : Request → Bool =
      λ r. same_subject r input && is_pending r.status && ltb now r.expires_at in
    let e = find_where-holds fresh t row there in
    record { same = ground arith; open_row = ground arith; unexpired = ground arith }

find_pending-Mem :
    (input : Request) (now : ℕ) (t : List (ℕ × Request)) (row : ℕ × Request)
    → find_pending input now t ≡ some row
    → Any (λ r. row ≡ r) t
unfolding find_pending
find_pending-Mem input now t row there = find_where-Mem (fresh_pending input now) t row there

find_pending-none :
    (input : Request) (now : ℕ) (t : List (ℕ × Request))
    → find_pending input now t ≡ none
    → All (λ (r : ℕ × Request). fresh_pending input now r.1 ≡ false) t
unfolding find_pending
find_pending-none input now t missing = find_where-none (fresh_pending input now) t missing

find_where-Stale :
    (input : Request) (now : ℕ) (t : List (ℕ × Request)) (row : ℕ × Request)
    → find_pending input now t ≡ none
    → find_where (same_pending input) t ≡ some row
    → Stale input now row.1
unfolding find_pending
find_where-Stale input now t row missing there =
    let fresh : Request → Bool =
      λ r. same_subject r input && is_pending r.status && ltb now r.expires_at in
    let e = find_where-holds (same_pending input) t row there in
    let f = find_where-fails fresh (same_pending input) t row missing there in
    record { same = ground arith; open_row = ground arith; lapsed = ground arith }

is_duplicate_absent :
    (input : Request) (t : List (ℕ × Request))
    → find_where (same_pending input) t ≡ none
    → is_duplicate input t ≡ false
unfolding is_duplicate
is_duplicate_absent input t nobody = rw (is_duplicate, nobody) refl

is_duplicate_present :
    (input : Request) (t : List (ℕ × Request)) (row : ℕ × Request)
    → find_where (same_pending input) t ≡ some row
    → is_pending input.status ≡ true
    → is_duplicate input t ≡ true
unfolding is_duplicate
is_duplicate_present input t row there pending_input = rw (is_duplicate, there) pending_input

pub data Asked (input : Request) (now : ℕ) (s : Store)
    : Store × (Error ⊎ ((ℕ × Request) × Bool)) → Type 0 where
  found :
      (row : ℕ × Request)
      → Any (λ r. row ≡ r) s.requests
      → Waits input now row.1
      → Asked input now s (s, inr (row, true))
  blocked :
      (row : ℕ × Request)
      → Any (λ r. row ≡ r) s.requests
      → Stale input now row.1
      → All (λ (r : ℕ × Request). fresh_pending input now r.1 ≡ false) s.requests
      → Asked input now s (s, inl unique_constraint)
  made :
      All (λ (r : ℕ × Request). same_pending input r.1 ≡ false) s.requests
      → Asked input now s (
        record s {
          requests = (s.next_request, input) ∷ s.requests;
          next_request = s.next_request + 1;
        },
        inr ((s.next_request, input), false),
      )

-- Asking for approval of a pending request has three outcomes. A row of the store that is open, of the same
-- type, subject and host and not expired is given back. Where the store has no such row but an open one
-- that has expired, the request is refused with `unique_constraint`, and nothing changes. Where no row is
-- open for the same type, subject and host, the request is added.
pub create_or_get_pending-Asked :
    (input : Request) (now : ℕ) (s : Store)
    → is_pending input.status ≡ true
    → Asked input now s (create_or_get_pending input now s)
unfolding create_or_get_pending
create_or_get_pending-Asked input now s pending_input =
    elim (Option-cases (find_pending input now s.requests)) [
      | inr (row, there) ↦
          rw (create_or_get_pending, there)
            (found row (find_pending-Mem input now s.requests row there)
              (find_pending-Waits input now s.requests row there))
      | inl missing ↦ elim (Option-cases (find_where (same_pending input) s.requests)) [
        | inl nobody ↦
            rw (create_or_get_pending, missing, is_duplicate_absent input s.requests nobody)
              (made (find_where-none (same_pending input) s.requests nobody))
        | inr (row, there) ↦
            rw
              (
                create_or_get_pending,
                missing,
                is_duplicate_present input s.requests row there pending_input,
              )
              (blocked row (find_where-Mem (same_pending input) s.requests row there)
                (find_where-Stale input now s.requests row missing there)
                (find_pending-none input now s.requests missing))
      ]
    ]
