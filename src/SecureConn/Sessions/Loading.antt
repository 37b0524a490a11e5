-- ===== src/SecureConn/Sessions/Loading.antt =====
-- LoadActiveSessionClaims of internal/secureconn/session.go: what it has found of a session and its device.
use or3_intern.Base.{
  ℕ, ◌≡◌, refl, inl, inr, Bool-cases, Option-cases, false, not, ◌||◌, ◌==◌, String, str_eq, Option,
  none, some,
}
use or3_intern.Base.Text.{trim_space}
use or3_intern.SecureConn.Claims.{SessionClaims}
use or3_intern.SecureConn.SessionStore.{Session, Device, Store, find_device, get_session, is_active}
use or3_intern.SecureConn.Sessions.{
  Manager, is_over, claims_of, verify_claims, load_claims, load_from, load_active_session_claims,
}

-- what stands in the store where claims are loaded
pub record Loaded (m : Manager) (id : String) (now : ℕ) (st : Store) (claims : SessionClaims)
    : Type 0 where
  pub session : Session
  pub device : Device
  pub found : get_session id st ≡ some session
  pub live : is_over now session ≡ false
  pub device_found : find_device (trim_space session.device_id) st.devices ≡ some device
  pub trusted : not (is_active device.status) ≡ false
  pub same_hosts :
      (not (str_eq device.host_id session.host_id) || not (str_eq session.host_id m.host_id))
      ≡ false
  pub same_epochs : not (device.enrollment_epoch == session.enrollment_epoch) ≡ false
  pub signed :
      (str_eq session.claim_mac ""
        || not (verify_claims m (claims_of session device) session.claim_mac))
      ≡ false
  pub is : claims_of session device ≡ claims

module _ (m : Manager) (id : String) (now : ℕ) (st : Store) (claims : SessionClaims) where
  load_claims-Loaded :
      (s : Session) (d : Device)
      → get_session id st ≡ some s
      → is_over now s ≡ false
      → find_device (trim_space s.device_id) st.devices ≡ some d
      → load_claims m s d ≡ inr claims
      → Loaded m id now st claims
  unfolding load_claims
  load_claims-Loaded s d found live device_found e = elim (Bool-cases (not (is_active d.status))) [
    | inl a ↦ absurd (cc (rw a at e))
    | inr a ↦
        elim (Bool-cases (not (str_eq d.host_id s.host_id) || not (str_eq s.host_id m.host_id))) [
          | inl b ↦ absurd (cc (rw (a, b) at e))
          | inr b ↦ elim (Bool-cases (not (d.enrollment_epoch == s.enrollment_epoch))) [
            | inl c ↦ absurd (cc (rw (a, b, c) at e))
            | inr c ↦
                elim (Bool-cases
                  (str_eq s.claim_mac "" || not (verify_claims m (claims_of s d) s.claim_mac))) [
                    | inl g ↦ absurd (cc (rw (a, b, c, g) at e))
                    | inr g ↦ record {
                      session = s;
                      device = d;
                      found = found;
                      live = live;
                      device_found = device_found;
                      trusted = a;
                      same_hosts = b;
                      same_epochs = c;
                      signed = g;
                      is = cc (rw (a, b, c, g) at e);
                    }
                  ]
          ]
        ]
  ]

  load_from-Loaded :
      (o : Option Session)
      → get_session id st ≡ o
      → load_from m now st o ≡ inr claims
      → Loaded m id now st claims
  unfolding load_from
  load_from-Loaded none found e = absurd (cc)
  load_from-Loaded (some s) found e = elim (Bool-cases (is_over now s)) [
    | inl over ↦ absurd (cc (rw over at e))
    | inr live ↦ elim (Option-cases (find_device (trim_space s.device_id) st.devices)) [
      | inl no_device ↦ absurd (cc (rw (live, no_device) at e))
      | inr (d, device_found) ↦
          load_claims-Loaded s d found live device_found (rw (live, device_found) at e)
    ]
  ]

  pub load_active_session_claims-Loaded :
      load_active_session_claims m id now st ≡ inr claims → Loaded m id now st claims
  unfolding load_active_session_claims
  load_active_session_claims-Loaded e = load_from-Loaded (get_session id st) refl e

  -- and such a store has them loaded
  pub Loaded-load_active_session_claims :
      Loaded m id now st claims → load_active_session_claims m id now st ≡ inr claims
  unfolding load_active_session_claims load_from load_claims
  Loaded-load_active_session_claims l =
      rw (l.found, l.live, l.device_found, l.trusted, l.same_hosts, l.same_epochs, l.signed, l.is)
        refl
