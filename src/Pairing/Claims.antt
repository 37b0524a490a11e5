-- ===== src/Pairing/Claims.antt =====
-- What the claims of pairing requests keep of the store (internal/approval/pairing.go).
use mathlib.Core.Option.{some-injective}
use or3_intern.Base.{
  ℕ, ◌<◌, ==_iff, ◌≡◌, ◌≢◌, refl, ap, sym, ◌∙◌, Bool, true, false, String, some, List, [], ◌∷◌,
  ◌++◌, Distinct, All, All-map, arith, if◌then◌else◌,
}
use or3_intern.Base.Table.{find, update, ids, find-update, ids-update, affected_positive}
use or3_intern.Pairing.Types.{
  PairingStatus, pending, approved, denied, expired, exchanged, PairingRequest, Tables, Metadata,
}
use or3_intern.Pairing.Tables.{same_status, row_in, resolve_status, swap_status}

abbrev pub IsExchanged : Tables → ℕ → Type 0
IsExchanged t id = (r : PairingRequest) × (find id t.requests ≡ some r) × (r.status ≡ exchanged)

pub record Sound (log open_claims : List ℕ) (t : Tables) : Type 0 where
  pub below : All (λ j. j < t.next_request) (ids t.requests)
  pub rows : Distinct (ids t.requests)
  pub done : All (IsExchanged t) log
  pub taken : All (IsExchanged t) open_claims
  pub log_once : Distinct log
  pub claims_once : Distinct open_claims
  pub apart : All (λ i. All (λ j. i ≢ j) log) open_claims

pub All-middle {ℓ} :
    {A : Type ℓ} (P : A → Type 0) (xs : List A) (x : A) (ys : List A)
    → All P (xs ++ (x ∷ ys))
    → P x × All P (xs ++ ys)
All-middle P [] x ys h = h
All-middle P (y ∷ xs) x ys h = let (p, rest) = All-middle P xs x ys h.1 in (p, (h.0, rest))

pub Distinct-middle :
    (xs : List ℕ) (x : ℕ) (ys : List ℕ)
    → Distinct (xs ++ (x ∷ ys))
    → All (λ y. y ≢ x) (xs ++ ys) × Distinct (xs ++ ys)
Distinct-middle [] x ys d = (All-map (λ y. x ≢ y) (λ y ne e. ne (sym e)) ys d.0, d.1)
Distinct-middle (y ∷ xs) x ys d =
    let (ne, rest) = All-middle (λ z. y ≢ z) xs x ys d.0 in
    let (others, once) = Distinct-middle xs x ys d.1 in ((ne, others), (rest, once))

pub if-true {ℓ} : {A : Type ℓ} (b : Bool) (x y : A) → b ≡ true → (if b then x else y) ≡ x
if-true b x y e = rw e refl

if-false {ℓ} : {A : Type ℓ} (b : Bool) (x y : A) → b ≡ false → (if b then x else y) ≡ y
if-false b x y e = rw e refl

-- A row that an update does not touch stays exchanged.
pub untouched :
    (c : ℕ → PairingRequest → Bool) (f : PairingRequest → PairingRequest) (t : Tables) (id : ℕ)
    → ((r : PairingRequest) → r.status ≡ exchanged → c id r ≡ false)
    → IsExchanged t id
    → IsExchanged (record t { requests = update c f t.requests }) id
untouched c f t id misses (r, found, is) = (
  r,
  find-update c f id t.requests r found ∙ ap some (if-false (c id r) (f r) r (misses r is)),
  is,
)

misses_status :
    (id j : ℕ) (from : PairingStatus) (r : PairingRequest)
    → same_status exchanged from ≡ false
    → r.status ≡ exchanged
    → row_in id from j r ≡ false
misses_status id j from r differs is = rw is (ground (arith, differs))

misses_id :
    (id j : ℕ) (from : PairingStatus) (r : PairingRequest) → j ≢ id → row_in id from j r ≡ false
misses_id id j from r ne = ground (arith, ne, ==_iff j id)

pub approved_status : (s : PairingStatus) → same_status s approved ≡ true → s ≡ approved
approved_status pending e = absurd (cc)
approved_status approved e = refl
approved_status denied e = absurd (cc)
approved_status expired e = absurd (cc)
approved_status exchanged e = absurd (cc)

kept_by_resolve :
    (id : ℕ) (to : PairingStatus) (approver : String) (approved_at denied_at : ℕ)
    (metadata : Metadata) (t : Tables) (j : ℕ)
    → IsExchanged t j
    → IsExchanged (resolve_status id pending to approver approved_at denied_at metadata t).0 j
unfolding resolve_status
kept_by_resolve id to approver approved_at denied_at metadata t j x =
    untouched (row_in id pending) _ t j (λ r is. misses_status id j pending r refl is) x

kept_by_claim :
    (id : ℕ) (t : Tables) (j : ℕ)
    → IsExchanged t j
    → IsExchanged (swap_status id approved exchanged t).0 j
unfolding swap_status
kept_by_claim id t j x =
    untouched (row_in id approved) _ t j (λ r is. misses_status id j approved r refl is) x

pub kept_by_return :
    (id : ℕ) (t : Tables) (j : ℕ)
    → j ≢ id
    → IsExchanged t j
    → IsExchanged (swap_status id exchanged approved t).0 j
unfolding swap_status
kept_by_return id t j ne x =
    untouched (row_in id exchanged) _ t j (λ r is. misses_id id j exchanged r ne) x

-- A claim that succeeds found its request approved, and leaves it exchanged.
pub claimed :
    (id : ℕ) (t : Tables)
    → Distinct (ids t.requests)
    → (swap_status id approved exchanged t).1 ≡ true
    → ((r : PairingRequest) × (find id t.requests ≡ some r) × (r.status ≡ approved))
      × IsExchanged (swap_status id approved exchanged t).0 id
unfolding swap_status
claimed id t d e =
    let (r, found, is) =
      affected_positive (λ (r : PairingRequest). same_status r.status approved) id t.requests d
        (ground arith) in
    (
      (r, found, approved_status r.status is),
      (
        record r { status = exchanged },
        find-update (row_in id approved) (λ (q : PairingRequest). record q { status = exchanged })
              id t.requests r found
            ∙ ap some (if-true (row_in id approved id r) _ r (ground (arith, is))),
        refl,
      ),
    )

-- an exchanged request is not the one that a claim takes
not_claimed :
    (t : Tables) (id : ℕ) (r : PairingRequest)
    → find id t.requests ≡ some r
    → r.status ≡ approved
    → (j : ℕ) → IsExchanged t j
    → id ≢ j
not_claimed t id r found is j (q, found', is') same =
    cc (some-injective r q (sym found ∙ ap (λ k. find k t.requests) same ∙ found'))

module _ {log open_claims : List ℕ} {t : Tables} where
  pub resolve-Sound :
      (id : ℕ) (to : PairingStatus) (approver : String) (approved_at denied_at : ℕ)
      (metadata : Metadata)
      → Sound log open_claims t
      → Sound log open_claims
          (resolve_status id pending to approver approved_at denied_at metadata t).0
  unfolding resolve_status
  resolve-Sound id to approver approved_at denied_at metadata v = record {
    below = rw (ids-update (row_in id pending) _ t.requests) v.below;
    rows = rw (ids-update (row_in id pending) _ t.requests) v.rows;
    done =
        All-map (IsExchanged t) (kept_by_resolve id to approver approved_at denied_at metadata t)
          log v.done;
    taken =
        All-map (IsExchanged t) (kept_by_resolve id to approver approved_at denied_at metadata t)
          open_claims v.taken;
    log_once = v.log_once;
    claims_once = v.claims_once;
    apart = v.apart;
  }

  pub claim-Sound :
      (id : ℕ)
      → (swap_status id approved exchanged t).1 ≡ true
      → Sound log open_claims t
      → Sound log (id ∷ open_claims) (swap_status id approved exchanged t).0
  unfolding swap_status
  claim-Sound id e v =
      let ((r, found, is), now) = claimed id t v.rows e in
      record {
        below = rw (ids-update (row_in id approved) _ t.requests) v.below;
        rows = rw (ids-update (row_in id approved) _ t.requests) v.rows;
        done = All-map (IsExchanged t) (kept_by_claim id t) log v.done;
        taken = (now, All-map (IsExchanged t) (kept_by_claim id t) open_claims v.taken);
        log_once = v.log_once;
        claims_once = (
          All-map (IsExchanged t) (not_claimed t id r found is) open_claims v.taken,
          v.claims_once,
        );
        apart = (All-map (IsExchanged t) (not_claimed t id r found is) log v.done, v.apart);
      }

  -- whatever a swap answers, it leaves what was exchanged
  pub unclaimed-Sound :
      (id : ℕ)
      → Sound log open_claims t
      → Sound log open_claims (swap_status id approved exchanged t).0
  unfolding swap_status
  unclaimed-Sound id v = record {
    below = rw (ids-update (row_in id approved) _ t.requests) v.below;
    rows = rw (ids-update (row_in id approved) _ t.requests) v.rows;
    done = All-map (IsExchanged t) (kept_by_claim id t) log v.done;
    taken = All-map (IsExchanged t) (kept_by_claim id t) open_claims v.taken;
    log_once = v.log_once;
    claims_once = v.claims_once;
    apart = v.apart;
  }
