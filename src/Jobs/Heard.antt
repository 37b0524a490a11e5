-- ===== src/Jobs/Heard.antt =====
-- What `Publish` calls leave in a subscriber's channel (internal/jobs/registry.go).
use mathlib.Core.Path.{subst}
use mathlib.Core.List.{append-nil, append_assoc}
use or3_intern.Base.{
  sym, ℕ, ◌+◌, ◌≤◌, ◌<◌, ◌≡◌, refl, ◌∙◌, ap, String, eq_refl, false, Option, some, List, [], ◌∷◌,
  ◌++◌, length, arith, length-append,
}
use or3_intern.Base.Assoc.{lookup, insert, lookup-insert}
use or3_intern.Jobs.Events.{
  text, EventData, Event, Channel, offer, clone_event_data, insert_missing,
}
use or3_intern.Jobs.Registry.{Entry, Registry}
use or3_intern.Jobs.Publish.{publish, publish_entry, find_sub, offer_all}
use or3_intern.Jobs.Equations.{publish_live}

pub lookup-insert_self {ℓ} :
    {V : Type ℓ} (k : String) (v : V) (m : List (String × V)) → lookup k (insert k v m) ≡ some v
lookup-insert_self k v m = simp (lookup-insert, eq_refl)

-- the event that is published with this number
abbrev pub event_of : (EventData → Option EventData) → String → ℕ → String → EventData → Event
event_of json id n kind payload = record {
  sequence = n;
  kind = kind;
  payload = clone_event_data json (insert_missing "job_id" (text id) payload);
}

-- a run of `Publish` calls on one job
unfoldable pub publish_all :
    (EventData → Option EventData) → ℕ → String → List (String × EventData) → Registry → Registry
publish_all json now id [] r = r
publish_all json now id ((kind, payload) ∷ msgs) r =
    publish_all json now id msgs (publish json now id kind payload r).0

offer_room :
    (ev : Event) (ch : Channel)
    → length ch.waiting < 128
    → offer ev ch ≡ record ch { waiting = ch.waiting ++ ev ∷ [] }
unfolding offer
offer_room ev ch h = ground arith

find_sub-offer_all :
    (ev : Event) (n : ℕ) (subs : List (ℕ × Channel)) (ch : Channel)
    → find_sub n subs ≡ some ch
    → find_sub n (offer_all ev subs) ≡ some (offer ev ch)
unfolding find_sub offer_all
find_sub-offer_all ev n [] ch h = absurd (cc)
find_sub-offer_all ev n ((k, x) ∷ subs) ch h = ground (arith, find_sub-offer_all ev n subs ch)

-- The subscriber `n` of the job `id` has `waiting`, and the job's counter stands at `at`.
pub record Hears (id : String) (n at : ℕ) (waiting : List Event) (r : Registry) : Type 0 where
  pub entry : Entry
  pub channel : Channel
  pub found : lookup id r.jobs ≡ some entry
  pub live : entry.terminal ≡ false
  pub subscribed : find_sub n entry.subscribers ≡ some channel
  pub counted : entry.next_seq ≡ at
  pub waits : channel.waiting ≡ waiting

-- the events of a run of messages, numbered on from `at`
unfoldable pub heard :
    (EventData → Option EventData) → String → ℕ → List (String × EventData) → List Event
heard json id at [] = []
heard json id at ((kind, payload) ∷ msgs) =
    event_of json id (at + 1) kind payload ∷ heard json id (at + 1) msgs

module _ (json : EventData → Option EventData) (now : ℕ) (id : String) (n : ℕ) where
  publish-Hears :
      (at : ℕ) (waiting : List Event) (kind : String) (payload : EventData) (r : Registry)
      → Hears id n at waiting r
      → length waiting < 128
      → Hears id n
          (at + 1)
          (waiting ++ event_of json id (at + 1) kind payload ∷ [])
          (publish json now id kind payload r).0
  publish-Hears at waiting kind payload r h room =
      let e = h.entry in
      let e' = publish_entry json now r.max_events id kind payload e in
      let ev = event_of json id (e.next_seq + 1) kind payload in
      let free : length h.channel.waiting < 128 =
        subst (λ (w : List Event). length w < 128) (sym h.waits) room in
      rw (publish_live json now id r kind payload e h.found h.live) (
        subst
          (λ m.
            Hears id n (m + 1) (waiting ++ event_of json id (m + 1) kind payload ∷ [])
              (record r { jobs = insert id e' r.jobs }))
          h.counted
          (record {
            entry = e';
            channel = record h.channel { waiting = h.channel.waiting ++ ev ∷ [] };
            found = lookup-insert_self id e' r.jobs;
            live = unfold publish_entry in h.live;
            subscribed =
                unfold publish_entry in
                find_sub-offer_all ev n e.subscribers h.channel h.subscribed
                ∙ ap some (offer_room ev h.channel free);
            counted = unfold publish_entry in refl;
            waits = ap (λ (w : List Event). w ++ ev ∷ []) h.waits;
          }))

  pub publish_all-Hears :
      (at : ℕ) (waiting : List Event) (msgs : List (String × EventData)) (r : Registry)
      → Hears id n at waiting r
      → length waiting + length msgs ≤ 128
      → (later : ℕ) × Hears id n later
          (waiting ++ heard json id at msgs)
          (publish_all json now id msgs r)
  unfolding publish_all heard
  publish_all-Hears at waiting [] r h room = (at, rw (append-nil waiting) h)
  publish_all-Hears at waiting ((kind, payload) ∷ msgs) r h room =
      let ev = event_of json id (at + 1) kind payload in
      let (later, rest) =
        publish_all-Hears (at + 1) (waiting ++ ev ∷ []) msgs (publish json now id kind payload r).0
          (publish-Hears at waiting kind payload r h (omega arith))
          (omega (arith, length-append waiting (ev ∷ []))) in
      (
        later,
        subst
            (λ w.
              Hears id n later w
                (publish_all json now id msgs (publish json now id kind payload r).0))
            (append_assoc waiting (ev ∷ []) (heard json id (at + 1) msgs)) rest,
      )
