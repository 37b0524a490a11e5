-- ===== src/Pairing/Devices.antt =====
-- internal/approval/devices.go: the tokens of paired devices. The audit trail is left out.
use or3_intern.Base.{
  ℕ, ltb, ◌==◌, String, str_eq, Bool, true, false, not, ◌&&◌, Option, none, some, List, [], ◌∷◌,
  ◌⊎◌, inl, inr, if◌then◌else◌,
}
use or3_intern.Base.Text.{trim_space, to_lower, is_blank, member, byte_length}
use or3_intern.Pairing.Types.{
  active, revoked, PairedDevice, Tables, Metadata, PairingBroker, PairingError, no_rows,
  device_id_required, token_too_short, invalid_role, token_not_found, token_revoked,
  role_not_allowed,
}
use or3_intern.Pairing.Tables.{get_device, upsert_device, find_hash, touch_device}

abbrev pub roles : List String
roles = "viewer" ∷ "operator" ∷ "connect" ∷ "service-client" ∷ "web-ui" ∷ "node" ∷ "admin" ∷ []

-- `normalizeRole`: no text for an unknown role
unfoldable pub normalize_role : String → String
normalize_role role =
    let normal = to_lower (trim_space role) in if member normal roles then normal else ""

-- `hashBytes`
abbrev pub hash_bytes : PairingBroker → String → String
hash_bytes b raw = b.sha256 (trim_space raw)

abbrev pub is_empty : List String → Bool
is_empty [] = true
is_empty (_ ∷ _) = false

abbrev pub is_active : PairedDevice → Bool
is_active d = (elim d.status [ active ↦ true | revoked ↦ false ]) && d.revoked_at == 0

-- `FindPairedDeviceByToken`
unfoldable pub find_token : PairingBroker → String → Tables → Option PairedDevice
find_token b raw t = find_hash (hash_bytes b raw) t.devices

unfoldable pub authenticate_device :
    List String → ℕ → Option PairedDevice → Tables → Tables × (PairingError ⊎ PairedDevice)
authenticate_device allowed now none t = (t, inl token_not_found)
authenticate_device allowed now (some d) t =
    if not (is_active d)
    then (t, inl token_revoked)
    else if not (is_empty allowed) && not (member d.role allowed)
    then (t, inl role_not_allowed)
    else (touch_device d.device_id now t, inr d)

-- `AuthenticateDeviceToken`
unfoldable pub authenticate_device_token :
    PairingBroker → String → List String → ℕ → Tables → Tables × (PairingError ⊎ PairedDevice)
unfolding authenticate_device
authenticate_device_token b raw allowed now t =
    authenticate_device allowed now (find_token b raw t) t

unfoldable pub revoke_found : ℕ → Option PairedDevice → Tables → PairingError ⊎ Tables
revoke_found now none t = inl no_rows
revoke_found now (some d) t =
    upsert_device now (record d { status = revoked; revoked_at = now; last_seen_at = now }) t

-- `RevokeDevice`
unfoldable pub revoke_device : String → ℕ → Tables → PairingError ⊎ Tables
revoke_device id now t = revoke_found now (get_device id t) t

-- the row that a new token makes
abbrev pub token_row :
    PairingBroker → String → String → String → String → Metadata → ℕ → PairedDevice
token_row b raw id role name metadata now = record {
  device_id = trim_space id;
  role = normalize_role role;
  display_name = trim_space name;
  token_hash = hash_bytes b raw;
  status = active;
  created_at = now;
  last_seen_at = now;
  revoked_at = 0;
  metadata = metadata;
}

-- the device as it is read back after a write
abbrev pub read_back :
    String → PairingError ⊎ Tables → PairingError ⊎ (Tables × Option PairedDevice)
read_back id (inl e) = inl e
read_back id (inr t) = inr (t, get_device id t)

-- `RotateDeviceToken`; `raw` is the random token
unfoldable pub rotate_device_token :
    PairingBroker
    → String
    → String
    → String
    → String
    → Metadata
    → ℕ
    → Tables
    → PairingError ⊎ (Tables × Option PairedDevice)
rotate_device_token b raw id role name metadata now t =
    read_back (trim_space id) (upsert_device now (token_row b raw id role name metadata now) t)

-- `RegisterDeviceToken`
unfoldable pub register_device_token :
    PairingBroker
    → String
    → String
    → String
    → String
    → Metadata
    → ℕ
    → Tables
    → PairingError ⊎ (Tables × Option PairedDevice)
register_device_token b id raw role name metadata now t =
    if is_blank id
    then inl device_id_required
    else if ltb (byte_length (trim_space raw)) 32
    then inl token_too_short
    else if str_eq (normalize_role role) ""
    then inl invalid_role
    else read_back (trim_space id)
        (upsert_device now (token_row b (trim_space raw) id role name metadata now) t)

rotate_found :
    PairingBroker
    → String
    → ℕ
    → Option PairedDevice
    → Tables
    → PairingError ⊎ (Tables × Option PairedDevice)
rotate_found b raw now none t = inl no_rows
rotate_found b raw now (some d) t =
    if is_active d
    then rotate_device_token b raw d.device_id d.role d.display_name d.metadata now t
    else inl token_revoked

-- `RotatePairedDeviceToken`
unfoldable pub rotate_paired_device_token :
    PairingBroker → String → String → ℕ → Tables → PairingError ⊎ (Tables × Option PairedDevice)
unfolding rotate_found
rotate_paired_device_token b raw id now t = rotate_found b raw now (get_device id t) t
