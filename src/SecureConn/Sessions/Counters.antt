-- ===== src/SecureConn/Sessions/Counters.antt =====
-- The counters of sessions (last_sequence_in) under the statements of
-- internal/db/secure_connection_store.go.
use mathlib.Core.Path.{subst}
use mathlib.Core.Option.{some-injective}
use or3_intern.Base.{
  ℕ, ◌/◌, ◌^◌, ◌≤◌, ◌<◌, ◌≡◌, sym, inl, inr, ◌⊎◌, Bool-cases, Option-cases, Sum-cases, Bool, true,
  false, ◌&&◌, String, str_eq, eq_iff, Option, some, List, [], ◌∷◌, map, All, All-keep, ltb, leb,
  arith,
}
use or3_intern.Base.Int.{ℤ, pos, negsuc, int64, pos_part, ltb_ℤ}
use or3_intern.Base.Text.{trim_space}
use or3_intern.SecureConn.Claims.{SessionClaims}
use or3_intern.SecureConn.SessionStore.{
  Session, Store, find_session, update_session, touch_session, touched, max_ℤ, update_step_up_row,
  affects, outlives, expire_sessions, expired_at, is_active, revoke_sessions_by_device,
  revoked_with, purge_sessions,
}
use or3_intern.SecureConn.Sessions.{
  SessionError, Manager, update_step_up, store_step_up, checked_step_up, load_active_session_claims,
}
use or3_intern.SecureConn.Sessions.Requests.{Passed}

-- The counter of this session, if it is the one named, has come to the number.
unfoldable pub IsCounted : Passed → Session → Type 0
IsCounted (id, n) s = s.session_id ≡ id → n ≤ pos_part s.last_sequence_in

-- So have all counters of the store.
unfoldable pub AllCounted : Passed → Store → Type 0
AllCounted x st = All (IsCounted x) st.sessions

module _ (P : Session → Type 0) where
  All-update_session :
      (id : String) (test : Session → Bool) (f : Session → Session) (sessions : List Session)
      → ((s : Session) → s.session_id ≡ id → P s → P (f s))
      → All P sessions
      → All P (update_session id test f sessions)
  unfolding update_session
  All-update_session id test f [] keeps h = tt
  All-update_session id test f (s ∷ sessions) keeps h =
      let rest = All-update_session id test f sessions keeps h.1 in
      elim (Bool-cases (str_eq s.session_id id && test s)) [
        | inl changed ↦ rw changed (keeps s (ground (arith, eq_iff s.session_id id)) h.0, rest)
        | inr same ↦ rw same (h.0, rest)
      ]

  All-mapped :
      (f : Session → Session) (sessions : List Session)
      → ((s : Session) → P s → P (f s))
      → All P sessions
      → All P (map f sessions)
  All-mapped f [] keeps h = tt
  All-mapped f (s ∷ sessions) keeps h = (keeps s h.0, All-mapped f sessions keeps h.1)

  pub All-find_session :
      (id : String) (sessions : List Session) {s : Session}
      → All P sessions
      → find_session id sessions ≡ some s
      → P s × (s.session_id ≡ id)
  unfolding find_session
  All-find_session id [] h found = absurd (cc)
  All-find_session id (t ∷ sessions) {s = s} h found = elim (Bool-cases (str_eq t.session_id id)) [
    | inl same ↦
        subst (λ u. P u × (u.session_id ≡ id)) (some-injective t s (rw same at found))
          (h.0, (eq_iff t.session_id id).0 same)
    | inr differs ↦ All-find_session id sessions {s = s} h.1 (rw differs at found)
  ]

max-left : (a b : ℤ) → pos_part a ≤ pos_part (max_ℤ a b)
max-left (pos m) (pos n) = ground arith
max-left (pos m) (negsuc n) = ground arith
max-left (negsuc m) (pos n) = ground arith
max-left (negsuc m) (negsuc n) = ground arith

max-right : (a b : ℤ) → pos_part b ≤ pos_part (max_ℤ a b)
max-right (pos m) (pos n) = ground arith
max-right (pos m) (negsuc n) = ground arith
max-right (negsuc m) (pos n) = ground arith
max-right (negsuc m) (negsuc n) = ground arith

-- No request takes a counter back.
module _ (x : Passed) where
  pub touch_session-counted :
      (id : String) (now : ℕ) (in_ out : ℤ) (st : Store)
      → AllCounted x st
      → AllCounted x (touch_session id now in_ out st)
  unfolding touch_session touched IsCounted AllCounted
  touch_session-counted id now in_ out st h =
      All-update_session (IsCounted x) (trim_space id) (λ s. true) (touched now in_ out) st.sessions
        (λ s same old e. omega (arith, old e, max-left s.last_sequence_in in_)) h

  update_step_up_row-counted :
      (id : String) (step_up_at : ℕ) (mac : String) (st : Store) {st' : Store}
      → update_step_up_row id step_up_at mac st ≡ some st'
      → AllCounted x st
      → AllCounted x st'
  unfolding update_step_up_row IsCounted AllCounted
  update_step_up_row-counted id step_up_at mac st {st' = st'} e h =
      elim (Bool-cases (affects (trim_space id) (outlives step_up_at) st.sessions)) [
        | inl some_row ↦ subst (AllCounted x) (some-injective _ st' (rw some_row at e)) (
            All-update_session (IsCounted x) (trim_space id) (outlives step_up_at) _ st.sessions
              (λ s same old. old) h)
        | inr no_row ↦ absurd (cc (rw no_row at e))
      ]

  store_step_up-counted :
      (m : Manager) (id : String) (st : Store) (r : SessionError ⊎ SessionClaims)
      → AllCounted x st
      → AllCounted x (store_step_up m id st r).0
  unfolding store_step_up
  store_step_up-counted m id st (inl e) h = h
  store_step_up-counted m id st (inr claims) h = elim (Option-cases (m.sign_claims claims)) [
    | inl unsigned ↦ rw (unsigned, store_step_up) h
    | inr (mac, signed) ↦
        rw (signed, store_step_up)
          (elim (Option-cases (update_step_up_row id claims.step_up_at mac st)) [
            | inl unaffected ↦ rw unaffected h
            | inr (st', stored) ↦
                rw stored
                  (update_step_up_row-counted id claims.step_up_at mac st {st' = st'} stored h)
          ])
  ]

  pub update_step_up-counted :
      (m : Manager) (id : String) (step_up_at : Option ℕ) (now : ℕ) (st : Store)
      → AllCounted x st
      → AllCounted x (update_step_up m id step_up_at now st).0
  unfolding update_step_up
  update_step_up-counted m id step_up_at now st h =
      elim (Sum-cases (load_active_session_claims m id (now / 1000000) st)) [
        | inl (e, failed) ↦ rw (failed, update_step_up) h
        | inr (claims, loaded) ↦
            rw (loaded, update_step_up)
              (store_step_up-counted m id st (checked_step_up claims step_up_at now) h)
      ]

  pub expire_sessions-counted :
      (now : ℕ) (st : Store) → AllCounted x st → AllCounted x (expire_sessions now st)
  unfolding expire_sessions expired_at AllCounted IsCounted
  expire_sessions-counted now st h =
      All-mapped (IsCounted x) (expired_at now) st.sessions
        (λ s old.
          elim (Bool-cases (is_active s.status && ltb 0 s.expires_at && leb s.expires_at now)) [
            | inl over ↦ rw over old
            | inr live ↦ rw live old
          ])
        h

  pub revoke_sessions-counted :
      (device : String) (now : ℕ) (st : Store)
      → AllCounted x st
      → AllCounted x (revoke_sessions_by_device device now st)
  unfolding revoke_sessions_by_device revoked_with AllCounted IsCounted
  revoke_sessions-counted device now st h =
      All-mapped (IsCounted x) (revoked_with (trim_space device) now) st.sessions
        (λ s old. elim (Bool-cases (str_eq s.device_id (trim_space device) && is_active s.status)) [
          | inl its ↦ rw its old
          | inr other ↦ rw other old
        ])
        h

  pub purge_sessions-counted :
      (older_than : ℕ) (st : Store) → AllCounted x st → AllCounted x (purge_sessions older_than st)
  unfolding purge_sessions AllCounted
  purge_sessions-counted older_than st h = All-keep (IsCounted x) _ st.sessions h

int64_small : (n : ℕ) → n < 2 ^ 63 → int64 n ≡ pos n
int64_small n small = ground arith

update_session-number :
    (i : String) (now n : ℕ) (out : ℤ) (sessions : List Session)
    → n < 2 ^ 63
    → All (IsCounted (i, n)) (update_session i (λ s. true) (touched now (int64 n) out) sessions)
unfolding IsCounted update_session touched
update_session-number i now n out [] small = tt
update_session-number i now n out (s ∷ sessions) small =
    let rest = update_session-number i now n out sessions small in
    elim (Bool-cases (str_eq s.session_id i)) [
      | inl same ↦ rw same (
        λ e.
            subst (λ m. n ≤ pos_part (max_ℤ s.last_sequence_in m)) (sym (int64_small n small))
              (max-right s.last_sequence_in (pos n)),
        rest,
      )
      | inr differs ↦ rw differs (λ e. absurd (ground (arith, eq_iff s.session_id i)), rest)
    ]

-- A frame that passes brings the counter to its number.
pub touch_session-number :
    (i : String) (now n : ℕ) (out : ℤ) (st : Store)
    → trim_space i ≡ i
    → n < 2 ^ 63
    → AllCounted (i, n) (touch_session i now (int64 n) out st)
unfolding touch_session AllCounted
touch_session-number i now n out st trimmed small =
    subst
      (λ j.
        All (IsCounted (i, n))
          (update_session j (λ s. true) (touched now (int64 n) out) st.sessions))
      (sym trimmed) (update_session-number i now n out st.sessions small)

pub counter_passed :
    (last : ℤ) (n : ℕ)
    → (ltb_ℤ (pos 0) last && leb n (pos_part last)) ≡ false
    → 1 ≤ n
    → n ≤ pos_part last
    → ⊥
counter_passed (pos m) n new positive old = ground arith
counter_passed (negsuc m) n new positive old = omega arith
