-- ===== src/Pairing/Tokens.antt =====
-- Whose token is accepted after a device was revoked or got a new token (internal/approval/devices.go).
use mathlib.Core.Path.{subst}
use mathlib.Core.Sum.{inr-injective}
use or3_intern.Base.{
  inl, inr, ◌⊎◌, Bool-cases, ℕ, ◌<◌, ◌≡◌, ◌≢◌, refl, ap, ◌∙◌, Bool, true, false, not, ◌&&◌, String,
  Option, none, some, List, Distinct, All,
}
use or3_intern.Base.Text.{trim_space, trim_space_twice, is_blank, member}
use or3_intern.Pairing.Types.{revoked, PairedDevice, Tables, PairingBroker}
use or3_intern.Pairing.Tables.{
  get_device, find_device, upsert_row, end_sessions, write_device, upsert_device,
}
use or3_intern.Pairing.Devices.{
  is_active, is_empty, hash_bytes, find_token, authenticate_device, authenticate_device_token,
  revoke_found, revoke_device,
}
use or3_intern.Pairing.Rows.{
  device_ids, find_device-id, All-find_hash, upsert_row-only, IsOver, end_sessions-IsOver,
}

-- What an accepted token shows.
pub record Accepted (b : PairingBroker) (raw : String) (allowed : List String) (t : Tables)
    (d : PairedDevice) : Type 0 where
  pub found : find_token b raw t ≡ some d
  pub is_live : is_active d ≡ true
  pub allows : (is_empty allowed ≡ true) ⊎ (member d.role allowed ≡ true)

permits : (e m : Bool) → (not e && not m) ≡ false → (e ≡ true) ⊎ (m ≡ true)
permits true m h = inl refl
permits false true h = inr refl
permits false false h = absurd (cc)

authenticate_device-Accepted :
    (b : PairingBroker) (raw : String) (allowed : List String) (now : ℕ) (o : Option PairedDevice)
    (t : Tables) (d : PairedDevice)
    → find_token b raw t ≡ o
    → (authenticate_device allowed now o t).1 ≡ inr d
    → Accepted b raw allowed t d
unfolding authenticate_device
authenticate_device-Accepted b raw allowed now none t d is e = absurd (cc)
authenticate_device-Accepted b raw allowed now (some k) t d is e = elim (Bool-cases (is_active k)) [
  | inr dead ↦ absurd (cc (rw dead at e))
  | inl live ↦ elim (Bool-cases (not (is_empty allowed) && not (member k.role allowed))) [
    | inr lets ↦
        let same : k ≡ d = inr-injective k d (rw (live, lets) at e) in
        subst (Accepted b raw allowed t) same (record {
          found = is;
          is_live = live;
          allows = permits (is_empty allowed) (member k.role allowed) lets;
        })
    | inl forbids ↦ absurd (cc (rw (live, forbids) at e))
  ]
]

pub authenticate_device_token-Accepted :
    (b : PairingBroker) (raw : String) (allowed : List String) (now : ℕ) (t : Tables)
    (d : PairedDevice)
    → (authenticate_device_token b raw allowed now t).1 ≡ inr d
    → Accepted b raw allowed t d
unfolding authenticate_device_token
authenticate_device_token-Accepted b raw allowed now t d e =
    authenticate_device-Accepted b raw allowed now (find_token b raw t) t d refl e

-- What a device's revocation leaves: nobody is taken for the device, and no session of it goes on.
pub record Revoked (b : PairingBroker) (id : String) (t : Tables) : Type 0 where
  pub refused :
      (raw : String) (allowed : List String) (now : ℕ) (d : PairedDevice)
      → (authenticate_device_token b raw allowed now t).1 ≡ inr d
      → d.device_id ≢ trim_space id
  pub sessions_over : All (IsOver (trim_space id)) t.sessions

module _ (b : PairingBroker) where
  dead_everywhere :
      (id : String) (t : Tables)
      → All (λ d. d.device_id ≡ trim_space id → is_active d ≡ false) t.devices
      → All (IsOver (trim_space id)) t.sessions
      → Revoked b id t
  unfolding find_token
  dead_everywhere id t dead over = record {
    refused = λ raw allowed now d e same.
        let ok = authenticate_device_token-Accepted b raw allowed now t d e in
        cc (
          ok.is_live,
          All-find_hash (λ k. k.device_id ≡ trim_space id → is_active k ≡ false) (hash_bytes b raw)
              t.devices dead ok.found same,
        );
    sessions_over = over;
  }

  previous_row :
      (id : String) (d : PairedDevice) (t : Tables)
      → d.device_id ≡ trim_space id
      → get_device id t ≡ some d
      → get_device d.device_id t ≡ some d
  unfolding get_device
  previous_row id d t is found =
      ap (λ k. find_device (trim_space k) t.devices) is
      ∙ ap (λ k. find_device k t.devices) (trim_space_twice id)
      ∙ found

  revoked_row : PairedDevice → ℕ → PairedDevice
  revoked_row d now = record d { status = revoked; revoked_at = now; last_seen_at = now }

  write-Revoked :
      (id : String) (now : ℕ) (d : PairedDevice) (t : Tables)
      → 0 < now
      → d.device_id ≡ trim_space id
      → get_device id t ≡ some d
      → Distinct (device_ids t.devices)
      → Revoked b id (write_device now (revoked_row d now) t)
  unfolding write_device revoked_row end_sessions get_device
  write-Revoked id now d t positive is found distinct =
      dead_everywhere id (write_device now (revoked_row d now) t)
        (subst
          (λ k.
            All (λ x. x.device_id ≡ k → is_active x ≡ false)
              (upsert_row (revoked_row d now) t.devices))
          is
          (upsert_row-only (λ x. is_active x ≡ false) (revoked_row d now) t.devices (λ at. refl)
            distinct))
        (subst
          (λ k.
            All (IsOver k)
              (end_sessions now (get_device d.device_id t) (revoked_row d now) t.sessions))
          (ap trim_space is ∙ trim_space_twice id)
          (end_sessions-IsOver now (get_device d.device_id t) d (revoked_row d now) t.sessions
            (previous_row id d t is found) positive refl (inl positive)))

  revoke_found-Revoked :
      (id : String) (now : ℕ) (o : Option PairedDevice) (t after : Tables)
      → 0 < now
      → Distinct (device_ids t.devices)
      → get_device id t ≡ o
      → revoke_found now o t ≡ inr after
      → Revoked b id after
  unfolding revoke_found upsert_device revoked_row get_device
  revoke_found-Revoked id now none t after positive distinct is e = absurd (cc)
  revoke_found-Revoked id now (some d) t after positive distinct is e =
      elim (Bool-cases (is_blank d.device_id)) [
        | inl blank ↦ absurd (cc (rw blank at e))
        | inr named ↦
            subst (Revoked b id)
              (inr-injective (write_device now (revoked_row d now) t) after (rw named at e))
              (write-Revoked id now d t positive (find_device-id (trim_space id) t.devices is) is
                distinct)
      ]

  -- After `RevokeDevice`, where the tables have one row for each device and the clock is past 1970: no
  -- token, for no roles, is accepted as the device's, and no session of the device goes on.
  pub revoke_device-Revoked :
      (id : String) (now : ℕ) (t after : Tables)
      → 0 < now
      → Distinct (device_ids t.devices)
      → revoke_device id now t ≡ inr after
      → Revoked b id after
  unfolding revoke_device
  revoke_device-Revoked id now t after positive distinct e =
      revoke_found-Revoked id now (get_device id t) t after positive distinct refl e
