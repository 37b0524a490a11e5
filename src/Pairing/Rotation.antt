-- ===== src/Pairing/Rotation.antt =====
-- Whose token is accepted after a device got a new one (internal/approval/devices.go).
use mathlib.Core.Path.{subst}
use mathlib.Core.Sum.{inr-injective}
use or3_intern.Base.{
  inl, inr, Bool-cases, ℕ, ◌<◌, ◌≡◌, ◌≢◌, refl, ap, sym, ◌∙◌, true, String, Option, some, List,
  Distinct, All,
}
use or3_intern.Base.Text.{trim_space, trim_space_twice, is_blank}
use or3_intern.Pairing.Types.{PairedDevice, Tables, Metadata, PairingBroker}
use or3_intern.Pairing.Tables.{
  get_device, find_device, upsert_row, end_sessions, write_device, upsert_device,
}
use or3_intern.Pairing.Devices.{
  is_active, hash_bytes, find_token, authenticate_device_token, token_row, rotate_device_token,
  normalize_role,
}
use or3_intern.Pairing.Rows.{
  device_ids, find_device-upsert_row, find_hash-hash, All-find_hash, upsert_row-only, IsOver,
  end_sessions-IsOver,
}
use or3_intern.Pairing.Tokens.{authenticate_device_token-Accepted}

-- What a new token leaves: the device's row with the token's hash, active and in a known role or none; no
-- other token is taken for the device; if the device had another token, its sessions are over; pairing
-- requests are as they were.
pub record Rotated (b : PairingBroker) (raw id role : String) (before after : Tables)
    (device : Option PairedDevice) : Type 0 where
  pub row :
      (d : PairedDevice) × (device ≡ some d)
      × (get_device id after ≡ some d)
      × (d.device_id ≡ trim_space id)
      × (d.role ≡ normalize_role role)
      × (d.token_hash ≡ hash_bytes b raw)
      × (is_active d ≡ true)
  pub only :
      (other : String) (allowed : List String) (now : ℕ) (d : PairedDevice)
      → (authenticate_device_token b other allowed now after).1 ≡ inr d
      → d.device_id ≡ trim_space id
      → hash_bytes b other ≡ hash_bytes b raw
  pub sessions_over :
      (previous : PairedDevice)
      → get_device id before ≡ some previous
      → previous.token_hash ≢ hash_bytes b raw
      → All (IsOver (trim_space id)) after.sessions
  pub requests : after.requests ≡ before.requests

module _ (b : PairingBroker) (raw id role name : String) (metadata : Metadata) (now : ℕ)
    (t : Tables) (positive : 0 < now) (distinct : Distinct (device_ids t.devices)) where
  new_row : PairedDevice
  new_row = token_row b raw id role name metadata now

  -- the only row of the device has the new hash
  one_hash :
      All
        (λ d. d.device_id ≡ trim_space id → d.token_hash ≡ hash_bytes b raw)
        (write_device now new_row t).devices
  unfolding new_row write_device
  one_hash =
      upsert_row-only (λ d. d.token_hash ≡ hash_bytes b raw) new_row t.devices (λ at. refl) distinct

  only_new :
      (other : String) (allowed : List String) (later : ℕ) (d : PairedDevice)
      → (authenticate_device_token b other allowed later (write_device now new_row t)).1 ≡ inr d
      → d.device_id ≡ trim_space id
      → hash_bytes b other ≡ hash_bytes b raw
  unfolding find_token
  only_new other allowed later d e is =
      let after : Tables = write_device now new_row t in
      let ok = authenticate_device_token-Accepted b other allowed later after d e in
      sym (find_hash-hash (hash_bytes b other) after.devices ok.found)
      ∙ All-find_hash (λ k. k.device_id ≡ trim_space id → k.token_hash ≡ hash_bytes b raw)
          (hash_bytes b other) after.devices one_hash ok.found is

  row_after :
      (d : PairedDevice) × (get_device (trim_space id) (write_device now new_row t) ≡ some d)
      × (d ≡ record new_row { created_at = d.created_at })
  unfolding get_device write_device new_row
  row_after =
      let (at, found) = find_device-upsert_row new_row t.devices in
      (
        record new_row { created_at = at },
        ap (λ k. find_device k (upsert_row new_row t.devices)) (trim_space_twice id) ∙ found,
        refl,
      )

  over :
      (previous : PairedDevice)
      → get_device id t ≡ some previous
      → previous.token_hash ≢ hash_bytes b raw
      → All (IsOver (trim_space id)) (write_device now new_row t).sessions
  unfolding get_device write_device new_row
  over previous found differs =
      subst
        (λ k. All (IsOver k) (end_sessions now (get_device (trim_space id) t) new_row t.sessions))
        (trim_space_twice id)
        (end_sessions-IsOver now (get_device (trim_space id) t) previous new_row t.sessions
          (ap (λ k. find_device k t.devices) (trim_space_twice id) ∙ found) positive refl
          (inr differs))

  write-Rotated :
      Rotated b raw id role t
        (write_device now new_row t)
        (get_device (trim_space id) (write_device now new_row t))
  unfolding write_device get_device new_row
  write-Rotated =
      let (d, found, is) = row_after in
      record {
        row = (
          d,
          found,
          ap (λ k. find_device k (write_device now new_row t).devices) (sym (trim_space_twice id))
              ∙ found,
          ap (λ k. k.device_id) is,
          ap (λ k. k.role) is,
          ap (λ k. k.token_hash) is,
          ap (λ k. is_active k) is,
        );
        only = only_new;
        sessions_over = over;
        requests = refl;
      }

  -- `RotateDeviceToken`, where it succeeds, the tables have one row for each device and the clock is past
  -- 1970: the device's row has the new token's hash and is active; no token of another hash is accepted
  -- as the device's; the sessions of a device that had another token are over.
  pub rotate_device_token-Rotated :
      (after : Tables) (device : Option PairedDevice)
      → rotate_device_token b raw id role name metadata now t ≡ inr (after, device)
      → Rotated b raw id role t after device
  unfolding rotate_device_token upsert_device new_row
  rotate_device_token-Rotated after device e = elim (Bool-cases (is_blank (trim_space id))) [
    | inl blank ↦ absurd (cc (rw blank at e))
    | inr named ↦
        let same =
          inr-injective
            (write_device now new_row t, get_device (trim_space id) (write_device now new_row t))
            (after, device) (rw named at e) in
        subst (λ p. Rotated b raw id role t p.0 p.1) same write-Rotated
  ]
