-- ===== src/Pairing/Requests.antt =====
-- internal/approval/pairing.go: pairing requests, from the code to the device's token. The audit trail is
-- left out.
use Prim.Native.Char.{code}
use or3_intern.Base.{
  ℕ, ◌+◌, ◌*◌, ltb, ◌==◌, String, str_eq, Bool, true, false, not, ◌&&◌, Option, none, some, List,
  [], ◌∷◌, ◌⊎◌, inl, inr, if◌then◌else◌,
}
use or3_intern.Base.Text.{trim_space}
use or3_intern.Approval.Types.{Mode, deny, ask, allowlist, trusted}
use or3_intern.Pairing.Types.{
  PairingStatus, pending, approved, denied, expired, PairingRequest, PairedDevice, Tables,
  PairingRequestInput, PairingBroker, PairingError, invalid_role, denied_by_policy, no_rows,
  not_pending, request_expired, code_required, no_device_with_code, several_devices_with_code,
}
use or3_intern.Pairing.Tables.{
  same_status, insert_request, get_request, resolve_status, find_waiting, get_device,
}
use or3_intern.Pairing.Devices.{normalize_role, is_active}

-- strings.ReplaceAll(code, "-", "")
unfoldable pub without_dashes : String → String
without_dashes String.[] = String.[]
without_dashes (String.◌∷◌ c s) =
    let rest = without_dashes s in if code c == b'-' then rest else String.◌∷◌ c rest

abbrev pub clean_code : String → String
clean_code code = trim_space (without_dashes code)

-- `hashPairingCode`; `hmac` has the prefix "or3.pairing-code.v1" in its function
unfoldable pub hash_pairing_code : PairingBroker → String → Option String
hash_pairing_code b code =
    let cleaned = clean_code code in
    if str_eq cleaned ""
    then none
    else some (if b.has_sign_key then b.hmac cleaned else b.sha256 (trim_space cleaned))

-- `pairingAllowlistMatches`, for a trimmed device id
allowlisted : String → Option PairedDevice → Bool
allowlisted role none = false
allowlisted role (some d) = is_active d && str_eq d.role role

unfoldable pub pairing_allowlist_matches : String → String → Tables → Bool
unfolding allowlisted
pairing_allowlist_matches id role t =
    if str_eq (trim_space id) "" then false else allowlisted role (get_device id t)

-- the policy's approval, unless the caller is unauthenticated
record Policy : Type 0 where
  pub status : PairingStatus
  pub approver : String
  pub at : ℕ

abbrev waits : Policy
waits = record { status = pending; approver = ""; at = 0 }

abbrev policy_approval : Bool → String → ℕ → Policy
policy_approval authenticated approver now =
    if authenticated then record { status = approved; approver = approver; at = now } else waits

-- the `switch` on the mode: `none` where it denies
policy_of : Mode → Bool → Bool → ℕ → Option Policy
policy_of deny authenticated listed now = none
policy_of ask authenticated listed now = some waits
policy_of trusted authenticated listed now =
    some (policy_approval authenticated "policy:trusted" now)
policy_of allowlist authenticated listed now =
    if listed then some (policy_approval authenticated "policy:allowlist" now) else none

abbrev pub or_random : String → String → String
or_random id random = if str_eq id "" then random else id

insert_by_policy :
    PairingBroker
    → String
    → String
    → String
    → PairingRequestInput
    → ℕ
    → Tables
    → Option Policy
    → PairingError ⊎ Tables
insert_by_policy b code id role input now t none = inl denied_by_policy
insert_by_policy b code id role input now t (some policy) = inr (
    insert_request
      (record {
        device_id = id;
        role = role;
        display_name = trim_space input.display_name;
        origin = trim_space input.origin;
        code_hash = hash_pairing_code b code;
        requested_at = now;
        expires_at = now + b.code_ttl_seconds * 1000;
        status = policy.status;
        approver_id = policy.approver;
        approved_at = policy.at;
        denied_at = 0;
        metadata = input.metadata;
      })
      t)

-- `CreatePairingRequest`; `code` and `random` are the random digits and the random id
unfoldable pub create_pairing_request :
    PairingBroker
    → Bool
    → String
    → String
    → PairingRequestInput
    → ℕ
    → Tables
    → PairingError ⊎ Tables
unfolding policy_of insert_by_policy
create_pairing_request b authenticated code random input now t =
    let role = normalize_role input.role in
    let id = or_random (trim_space input.device_id) random in
    if str_eq role ""
    then inl invalid_role
    else insert_by_policy b code id role input now t
        (policy_of b.mode authenticated (pairing_allowlist_matches id role t) now)

-- past `expires_at`
abbrev pub is_expired : PairingRequest → ℕ → Bool
is_expired r now = ltb 0 r.expires_at && ltb r.expires_at now

abbrev pub settled : Tables × Bool → Tables × Option PairingError
settled (t, true) = (t, none)
settled (t, false) = (t, some not_pending)

resolve_row :
    ℕ → String → PairingStatus → ℕ → Tables → PairingRequest → Tables × Option PairingError
resolve_row id actor target now t r =
    if not (same_status r.status pending)
    then (t, some not_pending)
    else if same_status target approved && is_expired r now
    then ((resolve_status id pending expired "system" 0 0 r.metadata t).0, some request_expired)
    else settled (
        resolve_status id pending target (trim_space actor)
          (if same_status target approved then now else 0)
          (if same_status target denied then now else 0) r.metadata t)

resolve_found :
    ℕ → String → PairingStatus → ℕ → Tables → Option PairingRequest → Tables × Option PairingError
unfolding resolve_row
resolve_found id actor target now t none = (t, some no_rows)
resolve_found id actor target now t (some r) = resolve_row id actor target now t r

-- `resolvePairingRequest`
unfoldable pub resolve_pairing_request :
    ℕ → String → PairingStatus → ℕ → Tables → Tables × Option PairingError
unfolding resolve_found
resolve_pairing_request id actor target now t =
    resolve_found id actor target now t (get_request id t)

-- `ApprovePairingRequest`
abbrev pub approve_pairing_request : ℕ → String → ℕ → Tables → Tables × Option PairingError
approve_pairing_request id actor now t = resolve_pairing_request id actor approved now t

-- `DenyPairingRequest`
abbrev pub deny_pairing_request : ℕ → String → ℕ → Tables → Tables × Option PairingError
deny_pairing_request id actor now t = resolve_pairing_request id actor denied now t

approve_waiting : List (ℕ × PairingRequest) → String → ℕ → Tables → Tables × Option PairingError
approve_waiting [] actor now t = (t, some no_device_with_code)
approve_waiting ((id, r) ∷ []) actor now t = approve_pairing_request id actor now t
approve_waiting (_ ∷ (_ ∷ _)) actor now t = (t, some several_devices_with_code)

-- `ApprovePairingRequestByCode`
unfoldable pub approve_by_code :
    PairingBroker → String → String → ℕ → Tables → Tables × Option PairingError
unfolding approve_waiting
approve_by_code b code actor now t =
    if str_eq (clean_code code) ""
    then (t, some code_required)
    else approve_waiting (find_waiting (hash_pairing_code b (clean_code code)) now t) actor now t
