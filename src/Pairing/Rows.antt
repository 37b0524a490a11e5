-- ===== src/Pairing/Rows.antt =====
-- The rows of paired devices and of sessions after a write (internal/db/approval_store.go).
use mathlib.Core.Path.{subst}
use mathlib.Core.Option.{some-injective}
use or3_intern.Base.{
  inl, inr, Bool-cases, ℕ, ◌<◌, ◌==◌, ==_iff, ltb, ltb→lt, ◌⊎◌, ◌≡◌, ◌≢◌, ap, sym, ◌∙◌, true, false,
  ◌&&◌, String, str_eq, eq_iff, eq_refl, Option, none, some, List, [], ◌∷◌, Distinct, All, arith,
  if◌then◌else◌,
}
use or3_intern.Base.Text.{trim_space}
use or3_intern.Pairing.Types.{PairedDevice, AuthSession}
use or3_intern.Pairing.Tables.{find_device, upsert_row, find_hash, revoke_sessions, end_sessions}

abbrev pub device_ids : List PairedDevice → List String
device_ids [] = []
device_ids (d ∷ devices) = d.device_id ∷ device_ids devices

pub find_device-upsert_row :
    (new : PairedDevice) (devices : List PairedDevice)
    → (at : ℕ) × (find_device new.device_id (upsert_row new devices)
        ≡ some (record new { created_at = at }))
unfolding find_device upsert_row
find_device-upsert_row new [] = (new.created_at, ground (arith, eq_refl new.device_id))
find_device-upsert_row new (d ∷ devices) = elim (Bool-cases (str_eq d.device_id new.device_id)) [
  | inl same ↦ (d.created_at, rw same (ground (arith, eq_refl new.device_id)))
  | inr differs ↦
      let (at, found) = find_device-upsert_row new devices in
      (at, rw differs (ground (arith, differs, found)))
]

pub find_device-id :
    (id : String) (devices : List PairedDevice) {d : PairedDevice}
    → find_device id devices ≡ some d
    → d.device_id ≡ id
unfolding find_device
find_device-id id [] e = absurd (cc)
find_device-id id (k ∷ devices) {d = d} e =
    ground (arith, eq_iff k.device_id id, find_device-id id devices {d = d})

pub find_hash-hash :
    (hash : String) (devices : List PairedDevice) {d : PairedDevice}
    → find_hash hash devices ≡ some d
    → d.token_hash ≡ hash
unfolding find_hash
find_hash-hash hash [] e = absurd (cc)
find_hash-hash hash (k ∷ devices) {d = d} e =
    ground (arith, eq_iff k.token_hash hash, find_hash-hash hash devices {d = d})

pub All-find_hash {κ} :
    (P : PairedDevice → Type κ) (hash : String) (devices : List PairedDevice) {d : PairedDevice}
    → All P devices
    → find_hash hash devices ≡ some d
    → P d
unfolding find_hash
All-find_hash P hash [] h e = absurd (cc)
All-find_hash P hash (k ∷ devices) {d = d} h e = elim (Bool-cases (str_eq k.token_hash hash)) [
  | inl same ↦ subst P (some-injective k d (rw same at e)) h.0
  | inr differs ↦ All-find_hash P hash devices {d = d} h.1 (rw differs at e)
]

strangers :
    (P : PairedDevice → Type 0) (id : String) (devices : List PairedDevice)
    → All (λ k. id ≢ k) (device_ids devices)
    → All (λ d. d.device_id ≡ id → P d) devices
strangers P id [] h = tt
strangers P id (d ∷ devices) h = (λ same. absurd (h.0 (sym same)), strangers P id devices h.1)

-- Where the ids are distinct, an upsert leaves one row of the device, the new one.
pub upsert_row-only :
    (P : PairedDevice → Type 0) (new : PairedDevice) (devices : List PairedDevice)
    → ((at : ℕ) → P (record new { created_at = at }))
    → Distinct (device_ids devices)
    → All (λ d. d.device_id ≡ new.device_id → P d) (upsert_row new devices)
unfolding upsert_row
upsert_row-only P new [] p d = (λ same. p new.created_at, tt)
upsert_row-only P new (k ∷ devices) p d = elim (Bool-cases (str_eq k.device_id new.device_id)) [
  | inl same ↦ rw same (
    λ is. p k.created_at,
    strangers P new.device_id devices (
        subst (λ i. All (λ x. i ≢ x) (device_ids devices))
          ((eq_iff k.device_id new.device_id).0 same) d.0),
  )
  | inr differs ↦ rw differs (
    λ is. absurd (cc (differs, (eq_iff k.device_id new.device_id).1 is)),
    upsert_row-only P new devices p d.1,
  )
]

-- a session of a device that was not revoked
abbrev pub IsOver : String → AuthSession → Type 0
IsOver id s = s.device_id ≡ id → s.revoked_at ≢ 0

session-IsOver :
    (id reason : String) (at : ℕ) (s : AuthSession)
    → 0 < at
    → IsOver (trim_space id) (
        if str_eq s.device_id (trim_space id) && s.revoked_at == 0
        then record s { revoked_at = at; revoked_reason = trim_space reason }
        else s)
session-IsOver id reason at s h =
    elim (Bool-cases (str_eq s.device_id (trim_space id) && s.revoked_at == 0)) [
      | inl ends ↦ rw ends (λ is zero. omega arith)
      | inr stays ↦
          rw stays
            (λ is zero. ground (arith, eq_iff s.device_id (trim_space id), ==_iff s.revoked_at 0))
    ]

pub revoke_sessions-IsOver :
    (id reason : String) (at : ℕ) (sessions : List AuthSession)
    → 0 < at
    → All (IsOver (trim_space id)) (revoke_sessions id reason at sessions)
unfolding revoke_sessions
revoke_sessions-IsOver id reason at [] h = tt
revoke_sessions-IsOver id reason at (s ∷ sessions) h =
    (session-IsOver id reason at s h, revoke_sessions-IsOver id reason at sessions h)

-- The sessions of a device whose row is revoked, or gets another token, are over.
pub end_sessions-IsOver :
    (now : ℕ) (o : Option PairedDevice) (previous new : PairedDevice) (sessions : List AuthSession)
    → o ≡ some previous
    → 0 < now
    → new.last_seen_at ≡ now
    → (0 < new.revoked_at) ⊎ (previous.token_hash ≢ new.token_hash)
    → All (IsOver (trim_space new.device_id)) (end_sessions now o new sessions)
unfolding end_sessions
end_sessions-IsOver now none previous new sessions e h seen why = absurd (cc)
end_sessions-IsOver now (some p) previous new sessions e h seen why =
    elim (Bool-cases (ltb 0 new.revoked_at)) [
      | inl gone ↦ rw gone (
          revoke_sessions-IsOver new.device_id "device-revoked" new.revoked_at sessions
            (ltb→lt 0 new.revoked_at gone))
      | inr stays ↦ elim (Bool-cases (str_eq p.token_hash new.token_hash)) [
        | inl same ↦ absurd (unchanged stays same)
        | inr other ↦
            rw (stays, other)
              (revoke_sessions-IsOver new.device_id "device-token-rotated"
                (if new.last_seen_at == 0 then now else new.last_seen_at) sessions (ground arith))
      ]
    ]
  where
    unchanged : ltb 0 new.revoked_at ≡ false → str_eq p.token_hash new.token_hash ≡ true → ⊥
    unchanged stays same = elim why [
      | inl gone ↦ ground arith
      | inr differs ↦ differs (
          ap (λ d. d.token_hash) (sym (some-injective p previous e))
          ∙ (eq_iff p.token_hash new.token_hash).0 same)
    ]
