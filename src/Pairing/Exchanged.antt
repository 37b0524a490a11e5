-- ===== src/Pairing/Exchanged.antt =====
-- What an exchange of a pairing code that succeeds has found and leaves (internal/approval/pairing.go).
use mathlib.Core.Path.{subst}
use mathlib.Core.Option.{some-injective}
use mathlib.Core.Sum.{inr-injective}
use or3_intern.Base.{
  inl, inr, ◌⊎◌, Bool-cases, ℕ, ◌<◌, ◌≡◌, refl, ap, ◌∙◌, Bool, true, false, String, Option, none,
  some, Distinct, arith,
}
use or3_intern.Base.Table.{find, find-update}
use or3_intern.Pairing.Types.{
  PairingStatus, approved, exchanged, PairingRequest, PairedDevice, Tables, PairingBroker,
  PairingError,
}
use or3_intern.Pairing.Tables.{
  same_status, same_hash, row_in, swap_status, find_by_code, with_hash, get_request,
}
use or3_intern.Pairing.Devices.{rotate_device_token}
use or3_intern.Pairing.Requests.{clean_code, hash_pairing_code, is_expired}
use or3_intern.Pairing.Exchange.{
  exchange_rotated, exchange_claimed, exchange_found, exchange_pairing_code,
}
use or3_intern.Pairing.Claims.{approved_status, if-true}
use or3_intern.Pairing.Rows.{device_ids}
use or3_intern.Pairing.Rotation.{Rotated, rotate_device_token-Rotated}

-- What an exchange that gave a device has done to a request.
pub record Exchanged (b : PairingBroker) (raw : String) (id : ℕ) (code : String) (now : ℕ)
    (r : PairingRequest) (before after : Tables) (device : Option PairedDevice) : Type 0 where
  pub found : get_request id before ≡ some r
  pub knew_code : same_hash r.code_hash (hash_pairing_code b (clean_code code)) ≡ true
  pub was_approved : r.status ≡ approved
  pub in_time : is_expired r now ≡ false
  pub used_up : get_request id after ≡ some (record r { status = exchanged })
  pub rotated :
      Rotated b raw r.device_id r.role (swap_status id approved exchanged before).0 after device

-- a row found by its code
find_by_code_inv :
    (id : ℕ) (hash : Option String) (o : Option PairingRequest) {r : PairingRequest}
    → with_hash hash o ≡ some r
    → (o ≡ some r) × (same_hash r.code_hash hash ≡ true)
find_by_code_inv id hash none e = absurd (cc)
find_by_code_inv id hash (some q) {r = r} e = elim (Bool-cases (same_hash q.code_hash hash)) [
  | inl fits ↦
      let same : q ≡ r = some-injective q r (rw fits at e) in
      (ap some same, subst (λ k. same_hash k.code_hash hash ≡ true) same fits)
  | inr differs ↦ absurd (cc (rw differs at e))
]

swapped :
    (id : ℕ) (t : Tables) (r : PairingRequest)
    → get_request id t ≡ some r
    → r.status ≡ approved
    → get_request id (swap_status id approved exchanged t).0
      ≡ some (record r { status = exchanged })
unfolding get_request swap_status
swapped id t r found is =
    find-update (row_in id approved) (λ (q : PairingRequest). record q { status = exchanged }) id
      t.requests r found
    ∙ ap some (if-true (row_in id approved id r) _ r (rw is (ground arith)))

devices-swap_status :
    (id : ℕ) (from to : PairingStatus) (t : Tables)
    → (swap_status id from to t).0.devices ≡ t.devices
unfolding swap_status
devices-swap_status id from to t = refl

module _ (b : PairingBroker) (raw : String) (id : ℕ) (now : ℕ) (device : Option PairedDevice)
    (positive : 0 < now) where
  Rotated-Exchanged :
      (r : PairingRequest) (t : Tables) (result : PairingError ⊎ (Tables × Option PairedDevice))
      → get_request id t ≡ some (record r { status = exchanged })
      → ((after : Tables) (d : Option PairedDevice)
          → result ≡ inr (after, d)
          → Rotated b raw r.device_id r.role t after d)
      → (exchange_rotated id t result).1 ≡ inr device
      → (get_request id (exchange_rotated id t result).0 ≡ some (record r { status = exchanged }))
        × Rotated b raw r.device_id r.role t (exchange_rotated id t result).0 device
  unfolding exchange_rotated get_request
  Rotated-Exchanged r t (inl e) used turned h = absurd (cc)
  Rotated-Exchanged r t (inr (after, d)) used turned h =
      let same : d ≡ device = inr-injective d device h in
      let done = turned after d refl in
      (
        ap (λ rows. find id rows) done.requests ∙ used,
        subst (λ k. Rotated b raw r.device_id r.role t after k) same done,
      )

  claimed-Exchanged :
      (r : PairingRequest) (t : Tables) (flag : Bool)
      → Distinct (device_ids t.devices)
      → get_request id t ≡ some (record r { status = exchanged })
      → (exchange_claimed b raw id now r (t, flag)).1 ≡ inr device
      → let after = (exchange_claimed b raw id now r (t, flag)).0 in
        (get_request id after ≡ some (record r { status = exchanged }))
        × Rotated b raw r.device_id r.role t after device
  unfolding exchange_claimed
  claimed-Exchanged r t false distinct used h = absurd (cc)
  claimed-Exchanged r t true distinct used h =
      Rotated-Exchanged r t
        (rotate_device_token b raw r.device_id r.role r.display_name r.metadata now t) used
        (rotate_device_token-Rotated b raw r.device_id r.role r.display_name r.metadata now t
          positive distinct)
        h

  found-Exchanged :
      (code : String) (before : Tables) (o : Option PairingRequest)
      → Distinct (device_ids before.devices)
      → find_by_code id (hash_pairing_code b (clean_code code)) before ≡ o
      → (exchange_found b raw id now before o).1 ≡ inr device
      → (r : PairingRequest) × Exchanged b raw id code now r before
          (exchange_found b raw id now before o).0
          device
  unfolding exchange_found find_by_code get_request
  found-Exchanged code before none distinct is h = absurd (cc)
  found-Exchanged code before (some r) distinct is h = elim (Bool-cases (is_expired r now)) [
    | inl late ↦ absurd (cc (rw late at h))
    | inr in_time ↦ elim (Bool-cases (same_status r.status approved)) [
      | inr other ↦ absurd (cc (rw (in_time, other) at h))
      | inl granted ↦
          let hash : Option String = hash_pairing_code b (clean_code code) in
          let (found, knew) = find_by_code_inv id hash (find id before.requests) is in
          let taken : Tables = (swap_status id approved exchanged before).0 in
          let flag : Bool = (swap_status id approved exchanged before).1 in
          let status : r.status ≡ approved = approved_status r.status granted in
          let (used, rotated) =
            claimed-Exchanged r taken flag
              (rw (devices-swap_status id approved exchanged before) distinct)
              (swapped id before r found status) (rw (in_time, granted) at h) in
          (
            r,
            rw (in_time, granted)
                (record {
                  found = found;
                  knew_code = knew;
                  was_approved = status;
                  in_time = in_time;
                  used_up = used;
                  rotated = rotated;
                }),
          )
    ]
  ]

  -- An exchange of a pairing code that gives a device, where the tables have one row for each device and
  -- the clock is past 1970, has found the request of that id under the code's hash, approved and in
  -- time, has left it exchanged, and has given its device the new token, with the request's role, in
  -- place of any other.
  pub exchange_pairing_code-Exchanged :
      (code : String) (before : Tables)
      → Distinct (device_ids before.devices)
      → (exchange_pairing_code b raw id code now before).1 ≡ inr device
      → (r : PairingRequest) × Exchanged b raw id code now r before
          (exchange_pairing_code b raw id code now before).0
          device
  unfolding exchange_pairing_code
  exchange_pairing_code-Exchanged code before distinct h =
      found-Exchanged code before (find_by_code id (hash_pairing_code b (clean_code code)) before)
        distinct refl h
