-- ===== src/Pairing/Tables.antt =====
-- The statements on pairing requests and paired devices (internal/db/approval_store.go), and that on the
-- sessions of a device (internal/db/auth_store.go).
use or3_intern.Base.{
  ℕ, suc, ◌==◌, ltb, leb, String, str_eq, Bool, true, false, not, ◌&&◌, ◌||◌, Option, none, some,
  List, [], ◌∷◌, take, ◌⊎◌, inl, inr, if◌then◌else◌,
}
use or3_intern.Base.Table.{find, update, affected}
use or3_intern.Base.Text.{trim_space, is_blank}
use or3_intern.Pairing.Types.{
  PairingStatus, pending, approved, denied, expired, exchanged, PairingRequest, PairedDevice,
  AuthSession, Tables, Metadata, PairingError, device_id_required,
}

abbrev pub same_status : PairingStatus → PairingStatus → Bool
same_status pending pending = true
same_status approved approved = true
same_status denied denied = true
same_status expired expired = true
same_status exchanged exchanged = true
same_status _ _ = false

-- `CreatePairingRequest`: the row's id is the new table's first
unfoldable pub insert_request : PairingRequest → Tables → Tables
insert_request r t = record t {
  requests = (t.next_request, r) ∷ t.requests;
  next_request = suc t.next_request;
}

-- `GetPairingRequest`
unfoldable pub get_request : ℕ → Tables → Option PairingRequest
get_request id t = find id t.requests

-- the row of an id, in a status
abbrev pub row_in : ℕ → PairingStatus → ℕ → PairingRequest → Bool
row_in id from j r = j == id && same_status r.status from

-- `ResolvePairingRequestStatus`: whether a row was changed
unfoldable pub resolve_status :
    ℕ → PairingStatus → PairingStatus → String → ℕ → ℕ → Metadata → Tables → Tables × Bool
resolve_status id from to approver approved_at denied_at metadata t = (
  record t {
    requests =
        update (row_in id from)
          (λ (r : PairingRequest). record r {
            status = to;
            approver_id = approver;
            approved_at = approved_at;
            denied_at = denied_at;
            metadata = metadata;
          })
          t.requests;
  },
  affected (row_in id from) t.requests == 1,
)

-- `CompareAndSwapPairingRequestStatus`
unfoldable pub swap_status : ℕ → PairingStatus → PairingStatus → Tables → Tables × Bool
swap_status id from to t = (
  record t {
    requests =
        update (row_in id from) (λ (r : PairingRequest). record r { status = to }) t.requests;
  },
  affected (row_in id from) t.requests == 1,
)

-- SQL's `=` is true for no NULL
abbrev pub same_hash : Option String → Option String → Bool
same_hash (some a) (some b) = str_eq a b
same_hash _ _ = false

abbrev pub with_hash : Option String → Option PairingRequest → Option PairingRequest
with_hash hash none = none
with_hash hash (some r) = if same_hash r.code_hash hash then some r else none

-- `FindPairingRequestByCodeHash`
unfoldable pub find_by_code : ℕ → Option String → Tables → Option PairingRequest
find_by_code id hash t = with_hash hash (find id t.requests)

-- the condition of `FindPairingRequestsByCodeHash` on pending rows
abbrev pub is_waiting : Option String → ℕ → PairingRequest → Bool
is_waiting hash now r =
    same_hash r.code_hash hash
    && same_status r.status pending
    && (now == 0 || (r.expires_at == 0 || leb now r.expires_at))

unfoldable pub waiting : Option String → ℕ → List (ℕ × PairingRequest) → List (ℕ × PairingRequest)
waiting hash now [] = []
waiting hash now ((id, r) ∷ rows) =
    let rest = waiting hash now rows in if is_waiting hash now r then (id, r) ∷ rest else rest

-- `FindPairingRequestsByCodeHash` with the status pending and a limit of two
unfoldable pub find_waiting : Option String → ℕ → Tables → List (ℕ × PairingRequest)
unfolding waiting
find_waiting hash now t = take 2 (waiting hash now t.requests)

unfoldable pub find_device : String → List PairedDevice → Option PairedDevice
find_device id [] = none
find_device id (d ∷ devices) = if str_eq d.device_id id then some d else find_device id devices

-- `GetPairedDevice`
unfoldable pub get_device : String → Tables → Option PairedDevice
get_device id t = find_device (trim_space id) t.devices

-- INSERT … ON CONFLICT(device_id) DO UPDATE SET …, which keeps `created_at`
unfoldable pub upsert_row : PairedDevice → List PairedDevice → List PairedDevice
upsert_row new [] = new ∷ []
upsert_row new (d ∷ devices) =
    if str_eq d.device_id new.device_id
    then record new { created_at = d.created_at } ∷ devices
    else d ∷ upsert_row new devices

-- `revokeAuthSessionsByDeviceExec`
unfoldable pub revoke_sessions : String → String → ℕ → List AuthSession → List AuthSession
revoke_sessions id reason at [] = []
revoke_sessions id reason at (s ∷ sessions) =
    let rest = revoke_sessions id reason at sessions in
    (if str_eq s.device_id (trim_space id) && s.revoked_at == 0
      then record s { revoked_at = at; revoked_reason = trim_space reason }
      else s)
    ∷ rest

-- whether the sessions of a device end with a change of its row, and why and when
unfoldable pub end_sessions :
    ℕ → Option PairedDevice → PairedDevice → List AuthSession → List AuthSession
end_sessions now none new sessions = sessions
end_sessions now (some previous) new sessions =
    if ltb 0 new.revoked_at
    then revoke_sessions new.device_id "device-revoked" new.revoked_at sessions
    else if not (str_eq previous.token_hash new.token_hash)
    then revoke_sessions new.device_id "device-token-rotated"
        (if new.last_seen_at == 0 then now else new.last_seen_at) sessions
    else sessions

unfoldable pub write_device : ℕ → PairedDevice → Tables → Tables
unfolding upsert_row end_sessions
write_device now new t = record t {
  devices = upsert_row new t.devices;
  sessions = end_sessions now (get_device new.device_id t) new t.sessions;
}

-- `UpsertPairedDevice`, a transaction; `now` is what `NowMS()` reads
unfoldable pub upsert_device : ℕ → PairedDevice → Tables → PairingError ⊎ Tables
unfolding write_device
upsert_device now new t =
    if is_blank new.device_id then inl device_id_required else inr (write_device now new t)

unfoldable pub find_hash : String → List PairedDevice → Option PairedDevice
find_hash hash [] = none
find_hash hash (d ∷ devices) = if str_eq d.token_hash hash then some d else find_hash hash devices

unfoldable pub touch_row : String → ℕ → List PairedDevice → List PairedDevice
touch_row id at [] = []
touch_row id at (d ∷ devices) =
    let rest = touch_row id at devices in
    (if str_eq d.device_id id then record d { last_seen_at = at } else d) ∷ rest

-- `TouchPairedDevice`
unfoldable pub touch_device : String → ℕ → Tables → Tables
unfolding touch_row
touch_device id at t = record t { devices = touch_row (trim_space id) at t.devices }
