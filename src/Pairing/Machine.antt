-- ===== src/Pairing/Machine.antt =====
-- The statements of pairing (internal/approval/pairing.go) on one store, by any callers and in any order.
use or3_intern.Base.{ℕ, Bool, true, inl, inr, String, List, [], ◌∷◌, ◌++◌}
use or3_intern.Pairing.Types.{
  PairingStatus, pending, approved, exchanged, PairingRequest, PairedDevice, AuthSession, Tables,
  Metadata, PairingBroker,
}
use or3_intern.Pairing.Tables.{insert_request, resolve_status, swap_status}
use or3_intern.Pairing.Exchange.{Exchange, exchange_claimed}

unfoldable pub empty_tables : Tables
empty_tables = record { requests = []; next_request = 1; devices = []; sessions = [] }

-- The requests whose exchange succeeded, once a call of `ExchangePairingCode` has had this result.
abbrev pub logged : ℕ → Exchange → List ℕ → List ℕ
logged id (inl e) log = log
logged id (inr device) log = id ∷ log

-- A run of statements: the requests whose exchange succeeded; the calls of `ExchangePairingCode` that are
-- between their compare and swap and what follows, each with its request and the swap's answer; the
-- tables.
pub data Run : List ℕ → List (ℕ × Bool) → Tables → Type 0 where
  start : Run [] [] empty_tables
  request :
      {log : List ℕ} {calls : List (ℕ × Bool)} {t : Tables}
      → Run log calls t
      → (r : PairingRequest) → Run log calls (insert_request r t)
  resolve :
      {log : List ℕ} {calls : List (ℕ × Bool)} {t : Tables}
      → Run log calls t
      → (id : ℕ) (to : PairingStatus) (approver : String) (approved_at denied_at : ℕ)
        (metadata : Metadata)
      → Run log calls (resolve_status id pending to approver approved_at denied_at metadata t).0
  swap :
      {log : List ℕ} {calls : List (ℕ × Bool)} {t : Tables}
      → Run log calls t
      → (id : ℕ)
      → Run log
          ((id, (swap_status id approved exchanged t).1) ∷ calls)
          (swap_status id approved exchanged t).0
  -- what `ExchangePairingCode` does with the answer of its swap
  resume :
      {log : List ℕ} {t : Tables} (id : ℕ) (claimed : Bool) (before after : List (ℕ × Bool))
      → Run log (before ++ ((id, claimed) ∷ after)) t
      → (b : PairingBroker) (raw : String) (now : ℕ) (r : PairingRequest)
      → Run
          (logged id (exchange_claimed b raw id now r (t, claimed)).1 log)
          (before ++ after)
          (exchange_claimed b raw id now r (t, claimed)).0
  -- where the database fails while the device is stored
  give_back :
      {log : List ℕ} {t : Tables} (id : ℕ) (before after : List (ℕ × Bool))
      → Run log (before ++ ((id, true) ∷ after)) t
      → Run log (before ++ after) (swap_status id exchanged approved t).0
  other :
      {log : List ℕ} {calls : List (ℕ × Bool)} {t : Tables}
      → Run log calls t
      → (devices : List PairedDevice) (sessions : List AuthSession)
      → Run log calls (record t { devices = devices; sessions = sessions })
