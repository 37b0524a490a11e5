-- ===== src/Pairing/Exchange.antt =====
-- `ExchangePairingCode` of internal/approval/pairing.go.
use or3_intern.Base.{
  ℕ, String, Bool, true, false, not, Option, none, some, ◌⊎◌, inl, inr, if◌then◌else◌,
}
use or3_intern.Pairing.Types.{
  pending, approved, expired, exchanged, PairingRequest, PairedDevice, Tables, PairingBroker,
  PairingError, request_expired, not_found, not_approved,
}
use or3_intern.Pairing.Tables.{same_status, resolve_status, swap_status, find_by_code}
use or3_intern.Pairing.Devices.{rotate_device_token}
use or3_intern.Pairing.Requests.{clean_code, hash_pairing_code, is_expired}

-- the device, or why there is none; the token is the argument `raw`
abbrev pub Exchange : Type 0
Exchange = PairingError ⊎ Option PairedDevice

-- the claim is given back where the token cannot be stored
unfoldable pub exchange_rotated :
    ℕ → Tables → PairingError ⊎ (Tables × Option PairedDevice) → Tables × Exchange
exchange_rotated id t (inl e) = ((swap_status id exchanged approved t).0, inl e)
exchange_rotated id t (inr (t', device)) = (t', inr device)

unfoldable pub exchange_claimed :
    PairingBroker → String → ℕ → ℕ → PairingRequest → Tables × Bool → Tables × Exchange
exchange_claimed b raw id now r (t, false) = (t, inl not_approved)
exchange_claimed b raw id now r (t, true) =
    exchange_rotated id t
      (rotate_device_token b raw r.device_id r.role r.display_name r.metadata now t)

unfoldable pub exchange_found :
    PairingBroker → String → ℕ → ℕ → Tables → Option PairingRequest → Tables × Exchange
unfolding exchange_claimed exchange_rotated
exchange_found b raw id now t none = (t, inl not_found)
exchange_found b raw id now t (some r) =
    if is_expired r now
    then ((resolve_status id pending expired "system" 0 0 r.metadata t).0, inl request_expired)
    else if not (same_status r.status approved)
    then (t, inl not_approved)
    else exchange_claimed b raw id now r (swap_status id approved exchanged t)

-- `ExchangePairingCode`; `raw` is the random token
unfoldable pub exchange_pairing_code :
    PairingBroker → String → ℕ → String → ℕ → Tables → Tables × Exchange
unfolding exchange_found
exchange_pairing_code b raw id code now t =
    exchange_found b raw id now t (find_by_code id (hash_pairing_code b (clean_code code)) t)
