-- ===== src/Jobs/Life.antt =====
-- Finishing a job, once, and what a subscriber receives.
use or3_intern.Base.{
  inl, inr, Bool-cases, ltb, ◌&&◌, drop, drop-append, ◌-◌, ℕ, ◌+◌, ◌≤◌, ◌≡◌, refl, ◌∙◌, ap, String,
  str_eq, true, false, Option, some, List, [], ◌∷◌, ◌++◌, length, arith, if◌then◌else◌,
  length-append,
}
use or3_intern.Base.Assoc.{lookup, insert}
use or3_intern.Jobs.Events.{text, EventData, Event, Channel}
use or3_intern.Jobs.Registry.{Entry, Registry, Snapshot, snapshot_for_entry}
use or3_intern.Jobs.Publish.{
  publish_entry, finish, complete, fail, pause_for_approval, subscribe, find_sub, trim,
}
use or3_intern.Jobs.Equations.{
  publish_over, publish_live, mark_terminal_live, finished, joined, subscribe_live,
}
use or3_intern.Jobs.Invariant.{RunsTo, kept_count, publish_entry-IsValid, close_all_open}
use or3_intern.Jobs.Upkeep.{RegistryIsValid, entry-IsValid}
use or3_intern.Jobs.Heard.{
  Hears, lookup-insert_self, event_of, publish_all, heard, publish_all-Hears,
}

-- Of the events, the oldest go where there are too many.
trim_last :
    (max : ℕ) (es : List Event) (last : Event)
    → (k : ℕ) × (trim max (es ++ last ∷ []) ≡ drop k es ++ last ∷ [])
unfolding trim
trim_last max es last = elim (Bool-cases (ltb 0 max && ltb max (length (es ++ last ∷ [])))) [
  | inl long ↦ (
    length (es ++ last ∷ []) - max,
    rw long (
        drop-append (length (es ++ last ∷ []) - max) es (last ∷ [])
          (ground (arith, length-append es (last ∷ [])))),
  )
  | inr short ↦ (0, rw short refl)
]

-- How a job that was `before` ends: with one event more, which is `last`, its status, and the rest at a
-- standstill. So many of its older events stay as the registry has room for.
pub record Ended (max : ℕ) (before after : Entry) (status : String) (last : Event) : Type 0 where
  pub terminal : after.terminal ≡ true
  pub done : after.done_closed ≡ true
  pub status_set : after.status ≡ status
  pub silent : after.subscribers ≡ []
  pub one_more : after.next_seq ≡ before.next_seq + 1
  pub numbered : RunsTo (before.next_seq + 1) after.events
  pub ends_with : (k : ℕ) × (after.events ≡ drop k before.events ++ last ∷ [])
  pub kept : length after.events ≡ kept_count max (before.next_seq + 1)

module _ (json : EventData → Option EventData) (now later : ℕ) (id : String) where
  finish_live :
      (kind status : String) (payload : EventData) (r : Registry) (e : Entry)
      → RegistryIsValid r
      → lookup id r.jobs ≡ some e
      → e.terminal ≡ false
      → (r' : Registry) × (e' : Entry) × (finish json now later id kind status payload r
          ≡ some (r', true))
        × (lookup id r'.jobs ≡ some e')
        × Ended r.max_events e e' status (event_of json id (e.next_seq + 1) kind payload)
  finish_live kind status payload r e v found live =
      let e₁ = publish_entry json now r.max_events id kind payload e in
      let r₁ : Registry = record r { jobs = insert id e₁ r.jobs } in
      let fits =
        publish_entry-IsValid json now r.max_events id kind payload e live
          (entry-IsValid id e v found) in
      let (shut, closed, _) = close_all_open e₁.subscribers fits.channels_open in
      let e₂ = finished json later id r₁ status e₁ in
      let found₁ : lookup id r₁.jobs ≡ some e₁ = lookup-insert_self id e₁ r.jobs in
      let live₁ : e₁.terminal ≡ false = unfold publish_entry in live in
      (
        record r₁ { jobs = insert id e₂ r₁.jobs; released = r₁.released ++ shut },
        e₂,
        unfold finish in
            rw (
              publish_live json now id r kind payload e found live,
              mark_terminal_live json later id r₁ status e₁ shut found₁ live₁
                  (fits.done_when_terminal ∙ live₁) closed,
            ),
        lookup-insert_self id e₂ r₁.jobs,
        record {
          terminal = refl;
          done = refl;
          status_set = refl;
          silent = refl;
          one_more = unfold publish_entry in refl;
          numbered = unfold publish_entry in fits.numbered;
          ends_with = unfold publish_entry in trim_last r.max_events e.events _;
          kept = unfold publish_entry in fits.kept;
        },
      )

  finish_over :
      (kind status : String) (payload : EventData) (r : Registry) (e : Entry)
      → lookup id r.jobs ≡ some e
      → e.terminal ≡ true
      → finish json now later id kind status payload r ≡ some (r, false)
  unfolding finish
  finish_over kind status payload r e found over =
      rw (publish_over json now id r kind payload e found over)

  -- With no other caller between its two lock sections, a live job of a valid registry is completed
  -- without a panic. Its last event is one more than it had, of the kind "completion", with the next
  -- number and the given payload, under "status" the status that was given ("completed" for the empty
  -- one) and under "job_id", unless the payload has that, the job's identifier; of the older events it
  -- keeps the latest, as many as there is room for. The job has that status, its channel `done` is
  -- closed and it has no subscribers; and completing, failing or pausing it again changes nothing.
  pub complete-Ended :
      (status : String) (payload : EventData) (r : Registry) (e : Entry)
      → RegistryIsValid r
      → lookup id r.jobs ≡ some e
      → e.terminal ≡ false
      → (r' : Registry) × (e' : Entry) × (complete json now later id status payload r
          ≡ some (r', true))
        × (lookup id r'.jobs ≡ some e')
        × Ended r.max_events e e' (if str_eq status "" then "completed" else status) (
            event_of json id
              (e.next_seq + 1)
              "completion"
              (insert "status" (text (if str_eq status "" then "completed" else status)) payload))
        × ((s m : String) (p : EventData)
            → (complete json now later id s p r' ≡ some (r', false))
              × (fail json now later id m p r' ≡ some (r', false))
              × (pause_for_approval json now later id p r' ≡ some (r', false)))
  unfolding complete fail pause_for_approval
  complete-Ended status payload r e v found live =
      let s = (if str_eq status "" then "completed" else status) in
      let (r', e', done, found', ended) =
        finish_live "completion" s (insert "status" (text s) payload) r e v found live in
      (
        r',
        e',
        done,
        found',
        ended,
        λ s m p. (
          finish_over "completion" _ _ r' e' found' ended.terminal,
          finish_over "error" _ _ r' e' found' ended.terminal,
          finish_over "approval_required" _ _ r' e' found' ended.terminal,
        ),
      )

-- what the subscriber `n` has after a run of events
pub record Received (id : String) (n : ℕ) (events : List Event) (r : Registry) : Type 0 where
  pub entry : Entry
  pub channel : Channel
  pub found : lookup id r.jobs ≡ some entry
  pub subscribed : find_sub n entry.subscribers ≡ some channel
  pub waits : channel.waiting ≡ events

-- Who subscribes to a live job and reads nothing while at most 128 events are published to it has exactly
-- these events waiting, in order, each with its kind, its payload and its number, counted on from the
-- job's counter at the time of the subscription, where the snapshot that came with it ends.
pub subscribe-Received :
    (json : EventData → Option EventData) (now : ℕ) (id : String) (r : Registry) (e : Entry)
    (msgs : List (String × EventData))
    → RegistryIsValid r
    → lookup id r.jobs ≡ some e
    → e.terminal ≡ false
    → length msgs ≤ 128
    → RunsTo e.next_seq e.events
      × ((subscribe json id r).1 ≡ some (snapshot_for_entry json e, some (e.next_sub_id + 1)))
      × Received id
          (e.next_sub_id + 1)
          (heard json id e.next_seq msgs)
          (publish_all json now id msgs (subscribe json id r).0)
subscribe-Received json now id r e msgs v found live room =
    let e' = joined e in
    let r' : Registry = record r { jobs = insert id e' r.jobs } in
    let start : Hears id (e.next_sub_id + 1) e.next_seq [] r' = record {
      entry = e';
      channel = record { waiting = []; closed = false };
      found = lookup-insert_self id e' r.jobs;
      live = live;
      subscribed = unfold find_sub in ground arith;
      counted = refl;
      waits = refl;
    } in
    let (later, h) =
      publish_all-Hears json now id (e.next_sub_id + 1) e.next_seq [] msgs r' start (omega arith) in
    (
      (entry-IsValid id e v found).numbered,
      ap (λ (p : Registry × Option (Snapshot × Option ℕ)). p.1)
          (subscribe_live json id r e found live),
      rw (subscribe_live json id r e found live) (record {
        entry = h.entry;
        channel = h.channel;
        found = h.found;
        subscribed = h.subscribed;
        waits = h.waits;
      }),
    )
