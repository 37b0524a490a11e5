-- ===== src/Examples/Pairing.antt =====
-- Pairing at concrete inputs.
use or3_intern.Base.{ℕ, ◌≡◌, ◌≢◌, refl, false, some, List, [], ◌∷◌, inr, Distinct, All, arith}
use or3_intern.Base.Table.{find, update, affected}
use or3_intern.Base.Text.{trim_space, to_lower, member}
use or3_intern.Approval.Types.{ask}
use or3_intern.Pairing.Types.{
  pending, approved, active, revoked, PairingRequest, PairedDevice, Tables, PairingBroker,
}
use or3_intern.Pairing.Tables.{
  find_hash, revoke_sessions, insert_request, resolve_status, swap_status, get_device, find_device,
  upsert_device, find_by_code,
}
use or3_intern.Pairing.Devices.{
  normalize_role, find_token, rotate_device_token, revoke_device, revoke_found,
  authenticate_device_token,
}
use or3_intern.Pairing.Requests.{hash_pairing_code, without_dashes}
use or3_intern.Pairing.Exchange.{Exchange, exchange_pairing_code}
use or3_intern.Pairing.Machine.{Run, start, request, resolve, logged, empty_tables}
use or3_intern.Pairing.Claims.{IsExchanged}
use or3_intern.Pairing.Once.{Run-once, claimed_ids, exchange_pairing_code-Run}
use or3_intern.Pairing.Rows.{device_ids}
use or3_intern.Pairing.Tokens.{Revoked, revoke_device-Revoked}
use or3_intern.Pairing.Exchanged.{Exchanged, exchange_pairing_code-Exchanged}

abbrev broker : PairingBroker
broker = record {
  mode = ask;
  code_ttl_seconds = 600;
  has_sign_key = false;
  sha256 = λ s. s;
  hmac = λ s. s;
}

abbrev asked : PairingRequest
asked = record {
  device_id = "phone";
  role = "operator";
  display_name = "Phone";
  origin = "";
  code_hash = some "123456";
  requested_at = 1000;
  expires_at = 601000;
  status = pending;
  approver_id = "";
  approved_at = 0;
  denied_at = 0;
  metadata = "{}";
}

-- the tables once the request is approved
abbrev granted : Tables
granted =
    (resolve_status 1 pending approved "owner" 2000 0 "{}" (insert_request asked empty_tables)).0

-- what a call of `ExchangePairingCode` comes to, and another with the same code after it
abbrev called : Tables → Tables × Exchange
called t = exchange_pairing_code broker "fresh" 1 "123-456" 3000 t

abbrev first_log : List ℕ
first_log = logged 1 (called granted).1 []

abbrev second_log : List ℕ
second_log = logged 1 (called (called granted).0).1 first_log

run : Run second_log [] (called (called granted).0).0
run =
    exchange_pairing_code-Run
      (exchange_pairing_code-Run (resolve (request start asked) 1 approved "owner" 2000 0 "{}")
        broker "fresh" 1 "123-456" 3000)
      broker "fresh" 1 "123-456" 3000

once : second_log ≡ 1 ∷ []
unfolding exchange_pairing_code find_by_code find resolve_status update insert_request empty_tables
    hash_pairing_code trim_space without_dashes swap_status affected rotate_device_token
    upsert_device get_device find_device normalize_role member to_lower
once = refl

Run-once_example :
    Distinct second_log
    × Distinct (claimed_ids [])
    × All (λ i. All (λ j. i ≢ j) second_log) (claimed_ids [])
    × All (IsExchanged (called (called granted).0).0) second_log
Run-once_example = Run-once run

-- a table of one device
abbrev paired : Tables
paired = record {
  requests = [];
  next_request = 1;
  devices =
      record {
        device_id = "phone";
        role = "operator";
        display_name = "Phone";
        token_hash = "secret";
        status = active;
        created_at = 1000;
        last_seen_at = 1000;
        revoked_at = 0;
        metadata = "{}";
      }
      ∷ [];
  sessions = record { id = "s"; device_id = "phone"; revoked_at = 0; revoked_reason = "" } ∷ [];
}

accepted_before :
    (authenticate_device_token broker " secret" [] 2000 paired).1
    ≡ inr (record {
      device_id = "phone";
      role = "operator";
      display_name = "Phone";
      token_hash = "secret";
      status = active;
      created_at = 1000;
      last_seen_at = 1000;
      revoked_at = 0;
      metadata = "{}";
    })
unfolding authenticate_device_token find_token find_hash trim_space
accepted_before = refl

abbrev closed : Tables
closed = record paired {
  devices =
      record {
        device_id = "phone";
        role = "operator";
        display_name = "Phone";
        token_hash = "secret";
        status = revoked;
        created_at = 1000;
        last_seen_at = 3000;
        revoked_at = 3000;
        metadata = "{}";
      }
      ∷ [];
  sessions =
      record { id = "s"; device_id = "phone"; revoked_at = 3000; revoked_reason = "device-revoked" }
      ∷ [];
}

revokes : revoke_device "phone " 3000 paired ≡ inr closed
unfolding revoke_device revoke_found get_device find_device trim_space upsert_device revoke_sessions
revokes = refl

revoke_device-Revoked_example : Revoked broker "phone " closed
revoke_device-Revoked_example =
    revoke_device-Revoked broker "phone " 3000 paired closed (omega arith) (tt, tt) revokes

no_devices : Distinct (device_ids granted.devices)
unfolding resolve_status insert_request empty_tables
no_devices = tt

-- the device that the exchange gives
abbrev phone : PairedDevice
phone = record {
  device_id = "phone";
  role = "operator";
  display_name = "Phone";
  token_hash = "fresh";
  status = active;
  created_at = 3000;
  last_seen_at = 3000;
  revoked_at = 0;
  metadata = "{}";
}

gives : (exchange_pairing_code broker "fresh" 1 "123-456" 3000 granted).1 ≡ inr (some phone)
unfolding exchange_pairing_code find_by_code find resolve_status update insert_request empty_tables
    hash_pairing_code trim_space without_dashes swap_status affected rotate_device_token
    upsert_device get_device find_device normalize_role member to_lower
gives = refl

exchange_pairing_code-Exchanged_example :
    (r : PairingRequest) × Exchanged broker "fresh" 1 "123-456" 3000 r granted
      (exchange_pairing_code broker "fresh" 1 "123-456" 3000 granted).0
      (some phone)
exchange_pairing_code-Exchanged_example =
    exchange_pairing_code-Exchanged broker "fresh" 1 3000 (some phone) (omega arith) "123-456"
      granted no_devices gives
