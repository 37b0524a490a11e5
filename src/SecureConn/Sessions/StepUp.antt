-- ===== src/SecureConn/Sessions/StepUp.antt =====
-- UpdateStepUp of internal/secureconn/session.go, followed by LoadActiveSessionClaims.
use mathlib.Core.Path.{subst}
use mathlib.Core.Sum.{inr-injective}
use mathlib.Core.Option.{some-injective}
use or3_intern.Base.{
  ℕ, ◌/◌, ◌+◌, ◌≡◌, refl, sym, ap, ◌∙◌, inl, inr, ◌⊎◌, Bool-cases, Option-cases, Sum-cases, Bool,
  true, false, not, ◌&&◌, ◌||◌, ◌≢◌, String, str_eq, eq_iff, Option, none, some, List, [], ◌∷◌, ltb,
  leb, eq_refl,
}
use or3_intern.Base.Text.{trim_space}
use or3_intern.SecureConn.Authorization.{validate_step_up_update}
use or3_intern.SecureConn.Types.{Error}
use or3_intern.SecureConn.Claims.{SessionClaims}
use or3_intern.SecureConn.SessionStore.{
  Session, Store, find_session, get_session, update_session, is_active, outlives, affects,
  update_step_up_row,
}
use or3_intern.SecureConn.Sessions.{
  SessionError, Manager, is_over, claims_of, verify_claims, load_active_session_claims,
  checked_step_up, step_up_result, store_step_up, update_step_up,
}
use or3_intern.SecureConn.Sessions.Loading.{
  Loaded, load_active_session_claims-Loaded, Loaded-load_active_session_claims,
}

find-update_session :
    (i : String) (test : Session → Bool) (f : Session → Session) (sessions : List Session)
    {s : Session}
    → ((t : Session) → str_eq (f t).session_id i ≡ str_eq t.session_id i)
    → find_session i sessions ≡ some s
    → test s ≡ true
    → find_session i (update_session i test f sessions) ≡ some (f s)
unfolding find_session update_session
find-update_session i test f [] keeps found passes = absurd (cc)
find-update_session i test f (t ∷ sessions) {s = s} keeps found passes =
    elim (Bool-cases (str_eq t.session_id i)) [
      | inl same ↦
          let first : t ≡ s = some-injective t s (rw same at found) in
          let passes_too : test t ≡ true = ap test first ∙ passes in
          rw (same, passes_too, keeps t ∙ same) (ap (λ u. some (f u)) first)
      | inr differs ↦
          rw (differs, differs)
            (find-update_session i test f sessions {s = s} keeps (rw differs at found) passes)
    ]

-- what a step-up does to its session
abbrev stepped : ℕ → String → Session → Session
stepped step_up_at mac s = record s { step_up_at = step_up_at; claim_mac = trim_space mac }

-- A step-up that has succeeded, and the store after it.
record SteppedUp (m : Manager) (id : String) (now : ℕ) (st st' : Store) (updated : SessionClaims)
    : Type 0 where
  claims : SessionClaims
  loaded : Loaded m id now st claims
  is : record claims { step_up_at = updated.step_up_at } ≡ updated
  mac : String
  signed : m.sign_claims updated ≡ some mac
  outlived : outlives updated.step_up_at loaded.session ≡ true
  store :
      record st {
        sessions =
            update_session
              (trim_space id)
              (outlives updated.step_up_at)
              (stepped updated.step_up_at mac)
              st.sessions;
      }
      ≡ st'

live_later :
    (now later : ℕ) (s : Session)
    → is_over now s ≡ false
    → (ltb 0 s.expires_at && leb s.expires_at later) ≡ false
    → is_over later s ≡ false
unfolding is_over
live_later now later s live in_time = elim (Bool-cases (is_active s.status)) [
  | inl active ↦ rw (active, in_time) refl
  | inr ended ↦ absurd (cc (rw ended at live))
]

verified :
    (m : Manager) (claims : SessionClaims) (mac : String)
    → m.sign_claims claims ≡ some mac
    → mac ≢ ""
    → (str_eq mac "" || not (verify_claims m claims mac)) ≡ false
unfolding verify_claims
verified m claims mac signed filled = elim (Bool-cases (str_eq mac "")) [
  | inl empty ↦ absurd (filled ((eq_iff mac "").0 empty))
  | inr other ↦ rw (other, signed, verify_claims, eq_refl mac) refl
]

module _ (m : Manager) (id : String) (later : ℕ) {now : ℕ} {st st' : Store}
    {updated : SessionClaims} where
  SteppedUp-Loaded :
      SteppedUp m id now st st' updated
      → ((mac : String) → m.sign_claims updated ≡ some mac → (trim_space mac ≡ mac) × (mac ≢ ""))
      → (ltb 0 updated.expires_at && leb updated.expires_at later) ≡ false
      → Loaded m id later st' updated
  unfolding claims_of get_session is_over
  SteppedUp-Loaded u plain in_time =
      let s = u.loaded.session in
      let d = u.loaded.device in
      let f = stepped updated.step_up_at u.mac in
      let now_is : claims_of (f s) d ≡ updated =
        ap (λ (c : SessionClaims). record c { step_up_at = updated.step_up_at }) u.loaded.is
        ∙ u.is in
      let expiry : s.expires_at ≡ updated.expires_at =
        ap (λ (c : SessionClaims). c.expires_at) now_is in
      let text = plain u.mac u.signed in
      subst (λ st'. Loaded m id later st' updated) u.store
        (record {
          session = f s;
          device = d;
          found =
              find-update_session (trim_space id) (outlives updated.step_up_at) f st.sessions
                {s = s} (λ t. refl) u.loaded.found u.outlived;
          live =
              live_later now later s u.loaded.live
                (subst (λ n. (ltb 0 n && leb n later) ≡ false) (sym expiry) in_time);
          device_found = u.loaded.device_found;
          trusted = u.loaded.trusted;
          same_hosts = u.loaded.same_hosts;
          same_epochs = u.loaded.same_epochs;
          signed =
              subst
                (λ c.
                  (str_eq (trim_space u.mac) "" || not (verify_claims m c (trim_space u.mac)))
                  ≡ false)
                (sym now_is)
                (subst (λ k. (str_eq k "" || not (verify_claims m updated k)) ≡ false) (sym text.0)
                  (verified m updated u.mac u.signed text.1));
          is = now_is;
        })

validated :
    (claims : SessionClaims) (at now : ℕ)
    → ltb (now + 5000000000) at ≡ false
    → validate_step_up_update claims (some at) now
      ≡ (record claims { step_up_at = at / 1000000 }, none)
unfolding validate_step_up_update
validated claims at now valid = rw (valid, validate_step_up_update) refl

too_early :
    (claims : SessionClaims) (at now : ℕ)
    → ltb (now + 5000000000) at ≡ true
    → (e : Error) × (validate_step_up_update claims (some at) now ≡ (claims, some e))
unfolding validate_step_up_update
too_early claims at now early = rw (early, validate_step_up_update) (_, refl)

checked_some :
    (claims : SessionClaims) (at now : ℕ) {updated : SessionClaims}
    → checked_step_up claims (some at) now ≡ inr updated
    → record claims { step_up_at = updated.step_up_at } ≡ updated
unfolding checked_step_up step_up_result
checked_some claims at now {updated = updated} e = elim (Bool-cases (ltb (now + 5000000000) at)) [
  | inl early ↦ absurd (cc (ap step_up_result (too_early claims at now early).1, e))
  | inr valid ↦
      let is : record claims { step_up_at = at / 1000000 } ≡ updated =
        inr-injective _ updated (sym (ap step_up_result (validated claims at now valid)) ∙ e) in
      subst (λ (c : SessionClaims). record claims { step_up_at = c.step_up_at } ≡ c) is refl
]

checked :
    (claims : SessionClaims) (step_up_at : Option ℕ) (now : ℕ) {updated : SessionClaims}
    → checked_step_up claims step_up_at now ≡ inr updated
    → record claims { step_up_at = updated.step_up_at } ≡ updated
unfolding checked_step_up validate_step_up_update
checked claims none now e = absurd (cc)
checked claims (some at) now {updated = updated} e =
    checked_some claims at now {updated = updated} e

affects-found :
    (id : String) (test : Session → Bool) (st : Store) (s : Session)
    → get_session id st ≡ some s
    → affects (trim_space id) test st.sessions ≡ test s
unfolding affects get_session
affects-found id test st s found = rw (found, affects) refl

module _ (m : Manager) (id : String) (now : ℕ) (st : Store) where
  affected-SteppedUp :
      (claims updated : SessionClaims) (mac : String)
      → Loaded m id now st claims
      → record claims { step_up_at = updated.step_up_at } ≡ updated
      → m.sign_claims updated ≡ some mac
      → {st' : Store} → update_step_up_row id updated.step_up_at mac st ≡ some st'
      → SteppedUp m id now st st' updated
  unfolding update_step_up_row
  affected-SteppedUp claims updated mac l is signed {st' = st'} row =
      let hit = affects-found id (outlives updated.step_up_at) st l.session l.found in
      elim (Bool-cases (outlives updated.step_up_at l.session)) [
        | inl outlived ↦ record {
          claims = claims;
          loaded = l;
          is = is;
          mac = mac;
          signed = signed;
          outlived = outlived;
          store = some-injective _ st' (rw (hit, outlived, update_step_up_row) at row);
        }
        | inr short ↦ absurd (cc (rw (hit, short, update_step_up_row) at row))
      ]

  stored-SteppedUp :
      (step_up_at : Option ℕ) (at : ℕ) (claims updated : SessionClaims)
      (o : SessionError ⊎ SessionClaims)
      → Loaded m id now st claims
      → checked_step_up claims step_up_at at ≡ o
      → (store_step_up m id st o).1 ≡ inr updated
      → SteppedUp m id now st (store_step_up m id st o).0 updated
  unfolding store_step_up
  stored-SteppedUp step_up_at at claims updated (inl err) l valid e = absurd (cc)
  stored-SteppedUp step_up_at at claims updated (inr c) l valid e =
      elim (Option-cases (m.sign_claims c)) [
        | inl unsigned ↦ absurd (cc (rw (unsigned, store_step_up) at e))
        | inr (mac, signed) ↦ elim (Option-cases (update_step_up_row id c.step_up_at mac st)) [
          | inl unaffected ↦ absurd (cc (rw (signed, unaffected, store_step_up) at e))
          | inr (st', row) ↦
              rw (signed, row, store_step_up)
                (subst (SteppedUp m id now st st') (cc (rw (signed, row, store_step_up) at e)) (
                  affected-SteppedUp claims c mac l
                    (checked claims step_up_at at {updated = c} valid) signed {st' = st'} row))
        ]
      ]

-- the load that comes first, at the millisecond of the time
update_step_up-SteppedUp :
    (m : Manager) (id : String) (step_up_at : Option ℕ) (now : ℕ) (st : Store)
    (updated : SessionClaims)
    → (update_step_up m id step_up_at now st).1 ≡ inr updated
    → SteppedUp m id (now / 1000000) st (update_step_up m id step_up_at now st).0 updated
unfolding update_step_up
update_step_up-SteppedUp m id step_up_at now st updated e =
    elim (Sum-cases (load_active_session_claims m id (now / 1000000) st)) [
      | inl (err, failed) ↦ absurd (cc (rw (failed, update_step_up) at e))
      | inr (claims, loaded) ↦
          rw (loaded, update_step_up)
            (stored-SteppedUp m id (now / 1000000) st step_up_at now claims updated _
              (load_active_session_claims-Loaded m id (now / 1000000) st claims loaded) refl
              (rw (loaded, update_step_up) at e))
    ]

-- Once UpdateStepUp has succeeded, loading the session's claims before they expire gives exactly the updated
-- claims: they pass the check of their signature, where the signatures of these claims are texts that are
-- not empty and have no blanks around them.
pub update_step_up-load :
    (m : Manager) (id : String) (step_up_at : Option ℕ) (now later : ℕ) (st : Store)
    (updated : SessionClaims)
    → ((mac : String) → m.sign_claims updated ≡ some mac → (trim_space mac ≡ mac) × (mac ≢ ""))
    → (update_step_up m id step_up_at now st).1 ≡ inr updated
    → (ltb 0 updated.expires_at && leb updated.expires_at later) ≡ false
    → load_active_session_claims m id later (update_step_up m id step_up_at now st).0 ≡ inr updated
update_step_up-load m id step_up_at now later st updated plain done in_time =
    Loaded-load_active_session_claims m id later _ updated (
      SteppedUp-Loaded m id later (update_step_up-SteppedUp m id step_up_at now st updated done)
        plain in_time)
