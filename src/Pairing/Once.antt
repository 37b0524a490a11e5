-- ===== src/Pairing/Once.antt =====
-- No pairing request is exchanged twice (internal/approval/pairing.go).
use mathlib.Core.Path.{subst}
use or3_intern.Base.{
  ap, refl, inl, inr, Bool, true, false, Bool-cases, Option, none, String, ℕ, ◌<◌, ==_iff, ◌≡◌, ◌≢◌,
  sym, ◌∙◌, List, [], ◌∷◌, ◌++◌, Distinct, All, All-map, arith, some,
}
use or3_intern.Base.Table.{find, ids, ids-update, find-insert_other}
use or3_intern.Pairing.Types.{
  approved, expired, exchanged, PairingRequest, PairedDevice, AuthSession, Tables, PairingBroker,
}
use or3_intern.Pairing.Tables.{
  insert_request, swap_status, row_in, same_status, find_by_code, upsert_device, write_device,
}
use or3_intern.Pairing.Machine.{
  Run, start, request, resolve, swap, resume, give_back, other, empty_tables, logged,
}
use or3_intern.Pairing.Exchange.{
  exchange_rotated, exchange_claimed, exchange_found, exchange_pairing_code,
}
use or3_intern.Pairing.Devices.{rotate_device_token}
use or3_intern.Pairing.Requests.{clean_code, hash_pairing_code, is_expired}
use or3_intern.Base.Text.{trim_space, is_blank}
use or3_intern.Pairing.Claims.{
  Sound, IsExchanged, All-middle, Distinct-middle, kept_by_return, resolve-Sound, claim-Sound,
  unclaimed-Sound,
}

-- a row that is there has an id below the next
find_below :
    (id n : ℕ) (r : PairingRequest) (rows : List (ℕ × PairingRequest))
    → All (λ j. j < n) (ids rows)
    → find id rows ≡ some r
    → id < n
unfolding find
find_below id n r [] h e = absurd (cc)
find_below id n r ((j, q) ∷ rows) h e = ground (arith, ==_iff j id, h.0, find_below id n r rows h.1)

module _ {log open_claims : List ℕ} {t : Tables} (v : Sound log open_claims t) where
  kept_by_insert :
      (r : PairingRequest) (j : ℕ) → IsExchanged t j → IsExchanged (insert_request r t) j
  unfolding insert_request
  kept_by_insert r j (q, found, is) = (
    q,
    find-insert_other t.next_request j r t.requests
          (find_below j t.next_request q t.requests v.below found)
        ∙ found,
    is,
  )

  request-Sound : (r : PairingRequest) → Sound log open_claims (insert_request r t)
  unfolding insert_request
  request-Sound r = record {
    below = (
      omega arith,
      All-map (λ j. j < t.next_request) (λ j h. omega arith) (ids t.requests) v.below,
    );
    rows =
        (All-map (λ j. j < t.next_request) (λ j h e. omega arith) (ids t.requests) v.below, v.rows);
    done = All-map (IsExchanged t) (kept_by_insert r) log v.done;
    taken = All-map (IsExchanged t) (kept_by_insert r) open_claims v.taken;
    log_once = v.log_once;
    claims_once = v.claims_once;
    apart = v.apart;
  }

  other-Sound :
      (devices : List PairedDevice) (sessions : List AuthSession)
      → Sound log open_claims (record t { devices = devices; sessions = sessions })
  other-Sound devices sessions = record {
    below = v.below;
    rows = v.rows;
    done = v.done;
    taken = v.taken;
    log_once = v.log_once;
    claims_once = v.claims_once;
    apart = v.apart;
  }

module _ {log : List ℕ} {t : Tables} (id : ℕ) (before after : List ℕ)
    (v : Sound log (before ++ (id ∷ after)) t) where
  finish-Sound : Sound (id ∷ log) (before ++ after) t
  finish-Sound =
      let (mine, taken) = All-middle (IsExchanged t) before id after v.taken in
      let (fresh, apart) = All-middle (λ i. All (λ j. i ≢ j) log) before id after v.apart in
      let (others, once) = Distinct-middle before id after v.claims_once in
      record {
        below = v.below;
        rows = v.rows;
        done = (mine, v.done);
        taken = taken;
        log_once = (fresh, v.log_once);
        claims_once = once;
        apart = both (before ++ after) others apart;
      }
    where
      both :
          (xs : List ℕ)
          → All (λ y. y ≢ id) xs
          → All (λ i. All (λ j. i ≢ j) log) xs
          → All (λ i. (i ≢ id) × All (λ j. i ≢ j) log) xs
      both [] p q = tt
      both (x ∷ xs) p q = ((p.0, q.0), both xs p.1 q.1)

  give_back-Sound : Sound log (before ++ after) (swap_status id exchanged approved t).0
  unfolding swap_status
  give_back-Sound =
      let (mine, taken) = All-middle (IsExchanged t) before id after v.taken in
      let (fresh, apart) = All-middle (λ i. All (λ j. i ≢ j) log) before id after v.apart in
      let (others, once) = Distinct-middle before id after v.claims_once in
      record {
        below = rw (ids-update (row_in id exchanged) _ t.requests) v.below;
        rows = rw (ids-update (row_in id exchanged) _ t.requests) v.rows;
        done = kept_all log (All-map (λ j. id ≢ j) (λ j ne e. ne (sym e)) log fresh) v.done;
        taken = kept_all (before ++ after) others taken;
        log_once = v.log_once;
        claims_once = once;
        apart = apart;
      }
    where
      kept_all :
          (xs : List ℕ)
          → All (λ y. y ≢ id) xs
          → All (IsExchanged t) xs
          → All (IsExchanged (swap_status id exchanged approved t).0) xs
      kept_all [] p q = tt
      kept_all (x ∷ xs) p q = (kept_by_return id t x p.0 q.0, kept_all xs p.1 q.1)

-- the requests that the calls have claimed
unfoldable pub claimed_ids : List (ℕ × Bool) → List ℕ
claimed_ids [] = []
claimed_ids ((id, true) ∷ calls) = id ∷ claimed_ids calls
claimed_ids ((id, false) ∷ calls) = claimed_ids calls

claimed_ids-append :
    (before after : List (ℕ × Bool))
    → claimed_ids (before ++ after) ≡ claimed_ids before ++ claimed_ids after
unfolding claimed_ids
claimed_ids-append [] after = refl
claimed_ids-append ((id, true) ∷ before) after =
    ap (λ ids. id ∷ ids) (claimed_ids-append before after)
claimed_ids-append ((id, false) ∷ before) after = claimed_ids-append before after

swap-Sound :
    {log : List ℕ} (id : ℕ) (calls : List (ℕ × Bool)) (t : Tables) (claimed : Bool)
    → (swap_status id approved exchanged t).1 ≡ claimed
    → Sound log (claimed_ids calls) t
    → Sound log (claimed_ids ((id, claimed) ∷ calls)) (swap_status id approved exchanged t).0
unfolding claimed_ids
swap-Sound id calls t true e v = claim-Sound id e v
swap-Sound id calls t false e v = unclaimed-Sound id v

-- What a call does with its claim, once the device is stored or not.
module _ {log : List ℕ} (id : ℕ) (before after : List (ℕ × Bool)) (t : Tables)
    (v : Sound log (claimed_ids (before ++ ((id, true) ∷ after))) t) where
  middle : Sound log (claimed_ids before ++ (id ∷ claimed_ids after)) t
  unfolding claimed_ids
  middle = subst (λ ids. Sound log ids t) (claimed_ids-append before ((id, true) ∷ after)) v

  given_back-Sound :
      Sound log (claimed_ids (before ++ after)) (swap_status id exchanged approved t).0
  given_back-Sound =
      rw (claimed_ids-append before after)
        (give_back-Sound id (claimed_ids before) (claimed_ids after) middle)

  stored-Sound :
      (devices : List PairedDevice) (sessions : List AuthSession)
      → Sound
          (id ∷ log)
          (claimed_ids (before ++ after))
          (record t { devices = devices; sessions = sessions })
  stored-Sound devices sessions = rw (claimed_ids-append before after) (
      other-Sound (finish-Sound id (claimed_ids before) (claimed_ids after) middle) devices
        sessions)

  claimed-Sound :
      (b : PairingBroker) (raw : String) (now : ℕ) (r : PairingRequest)
      → Sound
          (logged id (exchange_claimed b raw id now r (t, true)).1 log)
          (claimed_ids (before ++ after))
          (exchange_claimed b raw id now r (t, true)).0
  unfolding exchange_claimed exchange_rotated rotate_device_token upsert_device write_device
  claimed-Sound b raw now r = elim (Bool-cases (is_blank (trim_space r.device_id))) [
    | inl blank ↦ rw blank given_back-Sound
    | inr named ↦ rw named (stored-Sound _ _)
  ]

resume-Sound :
    {log : List ℕ} {t : Tables} (id : ℕ) (claimed : Bool) (before after : List (ℕ × Bool))
    → Sound log (claimed_ids (before ++ ((id, claimed) ∷ after))) t
    → (b : PairingBroker) (raw : String) (now : ℕ) (r : PairingRequest)
    → Sound
        (logged id (exchange_claimed b raw id now r (t, claimed)).1 log)
        (claimed_ids (before ++ after))
        (exchange_claimed b raw id now r (t, claimed)).0
unfolding exchange_claimed claimed_ids
resume-Sound {t = t} id true before after v b raw now r =
    claimed-Sound id before after t v b raw now r
resume-Sound {log = log} {t = t} id false before after v b raw now r =
    subst (λ ids. Sound log ids t)
      (claimed_ids-append before ((id, false) ∷ after) ∙ sym (claimed_ids-append before after)) v

Run-Sound :
    {log : List ℕ} {calls : List (ℕ × Bool)} {t : Tables}
    → Run log calls t
    → Sound log (claimed_ids calls) t
unfolding empty_tables claimed_ids
Run-Sound start = record {
  below = tt;
  rows = tt;
  done = tt;
  taken = tt;
  log_once = tt;
  claims_once = tt;
  apart = tt;
}
Run-Sound (request run r) = request-Sound (Run-Sound run) r
Run-Sound (resolve run id to approver approved_at denied_at metadata) =
    resolve-Sound id to approver approved_at denied_at metadata (Run-Sound run)
Run-Sound (swap {calls = calls} {t = t} run id) = swap-Sound id calls t _ refl (Run-Sound run)
Run-Sound (resume id claimed before after run b raw now r) =
    resume-Sound id claimed before after (Run-Sound run) b raw now r
Run-Sound (give_back {t = t} id before after run) =
    given_back-Sound id before after t (Run-Sound run)
Run-Sound (other run devices sessions) = other-Sound (Run-Sound run) devices sessions

-- A call of `ExchangePairingCode` with no other statement in between is a part of such a run.
pub exchange_pairing_code-Run :
    {log : List ℕ} {calls : List (ℕ × Bool)} {t : Tables}
    → Run log calls t
    → (b : PairingBroker) (raw : String) (id : ℕ) (code : String) (now : ℕ)
    → Run
        (logged id (exchange_pairing_code b raw id code now t).1 log)
        calls
        (exchange_pairing_code b raw id code now t).0
unfolding exchange_pairing_code exchange_found
exchange_pairing_code-Run {log} {calls} {t} run b raw id code now =
    go (find_by_code id (hash_pairing_code b (clean_code code)) t)
  where
    go :
        (o : Option PairingRequest)
        → Run
            (logged id (exchange_found b raw id now t o).1 log)
            calls
            (exchange_found b raw id now t o).0
    go none = run
    go (some r) = elim (Bool-cases (is_expired r now)) [
      | inl late ↦ rw late (resolve run id expired "system" 0 0 r.metadata)
      | inr in_time ↦ elim (Bool-cases (same_status r.status approved)) [
        | inr undecided ↦ rw (in_time, undecided) run
        | inl granted ↦ rw (in_time, granted) (resume id _ [] calls (swap run id) b raw now r)
      ]
    ]

-- No pairing request is exchanged twice, nor while another exchange holds it. A run is the store's
-- statements from the empty tables, by any callers and in any order; a call of `ExchangePairingCode` is in
-- it as its compare and swap and, any statements later, what the code does with the answer. In every run
-- the requests for which a call returned a device are distinct, those that calls have claimed and neither
-- given back nor returned a device for are distinct and none of the former, and the former are exchanged in
-- the tables.
pub Run-once :
    {log : List ℕ} {calls : List (ℕ × Bool)} {t : Tables}
    → Run log calls t
    → Distinct log
      × Distinct (claimed_ids calls)
      × All (λ i. All (λ j. i ≢ j) log) (claimed_ids calls)
      × All (IsExchanged t) log
Run-once run = let v = Run-Sound run in (v.log_once, v.claims_once, v.apart, v.done)
