-- ===== src/SecureConn/Sessions/Once.antt =====
-- A session of internal/secureconn/session.go counts its frames across connections: whatever windows the
-- connections have, and whatever else is done to the store, no number passes twice.
use mathlib.Core.Path.{subst}
use mathlib.Core.Option.{some-injective}
use or3_intern.Base.{
  Bool, Bool-cases, keep, leb, ltb, ◌&&◌, true, arith, ◌^◌, ◌≤◌, ◌<◌, ◌≡◌, ◌≢◌, sym, ap, ◌∙◌, inl,
  inr, ◌⊎◌, Option-cases, String, some, List, [], ◌∷◌, All, Distinct,
}
use or3_intern.Base.Int.{int64, pos_part}
use or3_intern.Base.Text.{trim_space, trim_space_twice}
use or3_intern.SecureConn.Types.{SecureFrame}
use or3_intern.SecureConn.Frame.{Codec}
use or3_intern.SecureConn.SessionStore.{Session, Store, get_session, touch_session}
use or3_intern.SecureConn.Sessions.{SessionError}
use or3_intern.SecureConn.Sessions.Requests.{
  Request, send, step_up, expire, revoke, purge, Passed, passed, added, step, all_passed,
}
use or3_intern.SecureConn.Sessions.Frames.{Counted, refused, counted, validate_frame-Counted}
use or3_intern.SecureConn.Sessions.Counters.{
  IsCounted, AllCounted, All-find_session, touch_session-counted, update_step_up-counted,
  expire_sessions-counted, revoke_sessions-counted, purge_sessions-counted, touch_session-number,
  counter_passed,
}

Counted-counted :
    (x : Passed) {id : String} {st st' : Store} {r : SessionError ⊎ SecureFrame}
    → Counted id st st' r
    → AllCounted x st
    → AllCounted x st'
Counted-counted x (refused e) h = h
Counted-counted x {st = st} (counted s now decoded found new) h =
    touch_session-counted x s.session_id now _ _ st h

all_unit : (sessions : List Session) → All (λ s. Unit {0}) sessions
all_unit [] = tt
all_unit (s ∷ sessions) = (tt, all_unit sessions)

-- the session that was found is named by the id
found-id :
    (id : String) (st : Store) {s : Session}
    → get_session id st ≡ some s
    → s.session_id ≡ trim_space id
unfolding get_session
found-id id st {s = s} found =
    (All-find_session (λ s. Unit {0}) (trim_space id) st.sessions {s = s} (all_unit st.sessions)
      found).1

Counted-later :
    (x y : Passed) {id : String} {st st' : Store} {r : SessionError ⊎ SecureFrame}
    → Counted id st st' r
    → AllCounted x st
    → 1 ≤ y.1
    → passed id r ≡ some y
    → x ≢ y
unfolding passed get_session IsCounted AllCounted
Counted-later x y (refused e) h positive is = absurd (cc)
Counted-later x y {id} {st} (counted s now decoded found new) h positive is = λ same.
    let number : (trim_space id, decoded.sequence) ≡ y = some-injective _ y is in
    let old = (All-find_session (IsCounted x) (trim_space id) st.sessions {s = s} h found).0 in
    counter_passed s.last_sequence_in decoded.sequence new
      (subst (λ (z : Passed). 1 ≤ z.1) (sym number) positive)
      (subst (λ (z : Passed). z.1 ≤ pos_part s.last_sequence_in) (same ∙ sym number)
        (old (found-id id st {s = s} found ∙ ap (λ (z : Passed). z.0) (number ∙ sym same))))

Counted-number :
    (y : Passed) {id : String} {st st' : Store} {r : SessionError ⊎ SecureFrame}
    → Counted id st st' r
    → y.1 < 2 ^ 63
    → passed id r ≡ some y
    → AllCounted y st'
unfolding passed
Counted-number y (refused e) small is = absurd (cc)
Counted-number y {id} {st} (counted s now decoded found new) small is =
    let number : (trim_space id, decoded.sequence) ≡ y = some-injective _ y is in
    let named = found-id id st {s = s} found in
    subst
      (λ z.
        AllCounted z
          (touch_session s.session_id now (int64 decoded.sequence) s.last_sequence_out st))
      (ap (λ i. (i, decoded.sequence)) named ∙ number)
      (touch_session-number s.session_id now decoded.sequence s.last_sequence_out st
        (ap trim_space named ∙ trim_space_twice id ∙ sym named)
        (subst (λ (z : Passed). z.1 < 2 ^ 63) (sym number) small))

-- the numbers that the counter, an `int64`, tells from none
abbrev pub in_range : Passed → Bool
in_range (id, n) = leb 1 n && ltb n (2 ^ 63)

in_range-bounds : (y : Passed) → in_range y ≡ true → (1 ≤ y.1) × (y.1 < 2 ^ 63)
in_range-bounds (id, n) e = (ground arith, ground arith)

module _ {Bytes : Type 0} (codec : Codec Bytes) where
  step-counted :
      (x : Passed) (r : Request Bytes) (st : Store)
      → AllCounted x st
      → AllCounted x (step codec r st).0
  unfolding step
  step-counted x (send id raw now window) st h =
      Counted-counted x (validate_frame-Counted codec id raw now st window) h
  step-counted x (step_up m id step_up_at now) st h =
      update_step_up-counted x m id step_up_at now st h
  step-counted x (expire now) st h = expire_sessions-counted x now st h
  step-counted x (revoke device now) st h = revoke_sessions-counted x device now st h
  step-counted x (purge older_than) st h = purge_sessions-counted x older_than st h

  -- What has been counted does not pass any more.
  step-later :
      (x y : Passed) (r : Request Bytes) (st : Store)
      → AllCounted x st
      → 1 ≤ y.1
      → (step codec r st).1 ≡ some y
      → x ≢ y
  unfolding step
  step-later x y (send id raw now window) st h positive is =
      Counted-later x y (validate_frame-Counted codec id raw now st window) h positive is
  step-later x y (step_up m id step_up_at now) st h positive is = absurd (cc)
  step-later x y (expire now) st h positive is = absurd (cc)
  step-later x y (revoke device now) st h positive is = absurd (cc)
  step-later x y (purge older_than) st h positive is = absurd (cc)

  step-number :
      (y : Passed) (r : Request Bytes) (st : Store)
      → y.1 < 2 ^ 63
      → (step codec r st).1 ≡ some y
      → AllCounted y (step codec r st).0
  unfolding step
  step-number y (send id raw now window) st small is =
      Counted-number y (validate_frame-Counted codec id raw now st window) small is
  step-number y (step_up m id step_up_at now) st small is = absurd (cc)
  step-number y (expire now) st small is = absurd (cc)
  step-number y (revoke device now) st small is = absurd (cc)
  step-number y (purge older_than) st small is = absurd (cc)

  All-later :
      (x : Passed) (requests : List (Request Bytes)) (st : Store)
      → AllCounted x st
      → All (λ y. x ≢ y) (keep in_range (all_passed codec requests st))
  unfolding all_passed added
  All-later x [] st h = tt
  All-later x (r ∷ requests) st h =
      let rest = All-later x requests (step codec r st).0 (step-counted x r st h) in
      elim (Option-cases (step codec r st).1) [
        | inl nothing ↦ rw (nothing, added) rest
        | inr (y, one) ↦ elim (Bool-cases (in_range y)) [
          | inl inside ↦
              rw (one, added, inside) (step-later x y r st h (in_range-bounds y inside).0 one, rest)
          | inr outside ↦ rw (one, added, outside) rest
        ]
      ]

  -- Whatever frames and other requests come to the sessions of the store, one after the other, over
  -- whatever connections with whatever windows or none: of the numbers from 1 to 2 ^ 63 - 1 that pass,
  -- none passes twice in one session.
  pub all_passed-Distinct :
      (requests : List (Request Bytes)) (st : Store)
      → Distinct (keep in_range (all_passed codec requests st))
  unfolding all_passed added
  all_passed-Distinct [] st = tt
  all_passed-Distinct (r ∷ requests) st =
      let rest = all_passed-Distinct requests (step codec r st).0 in
      elim (Option-cases (step codec r st).1) [
        | inl nothing ↦ rw (nothing, added) rest
        | inr (y, one) ↦ elim (Bool-cases (in_range y)) [
          | inl inside ↦
              rw (one, added, inside)
                (
                  All-later y requests (step codec r st).0
                      (step-number y r st (in_range-bounds y inside).1 one),
                  rest,
                )
          | inr outside ↦ rw (one, added, outside) rest
        ]
      ]
