-- ===== src/Jobs/Publish.antt =====
-- internal/jobs/registry.go: publishing, finishing, subscribing.
use or3_intern.Base.{
  ℕ, ◌+◌, ◌-◌, ◌==◌, String, str_eq, Bool, true, false, not, ◌&&◌, Option, none, some, List, [],
  ◌∷◌, ◌++◌, length, drop, keep, ltb, if◌then◌else◌, ◌>>=◌,
}
use or3_intern.Base.Assoc.{lookup, insert}
use or3_intern.Jobs.Events.{
  text, EventData, Event, Channel, offer, close, close_all, text_at, insert_missing,
  clone_event_data,
}
use or3_intern.Jobs.Registry.{Entry, Registry, Snapshot, snapshot_for_entry}

-- the channels of the subscribers, each offered the event
unfoldable pub offer_all : Event → List (ℕ × Channel) → List (ℕ × Channel)
offer_all ev [] = []
offer_all ev ((sub, ch) ∷ subs) = (sub, offer ev ch) ∷ offer_all ev subs

-- `if r.maxEvents > 0 && len(entry.events) > r.maxEvents { … entry.events[len - r.maxEvents:] … }`
unfoldable pub trim : ℕ → List Event → List Event
trim max events =
    if ltb 0 max && ltb max (length events) then drop (length events - max) events else events

module _ (json : EventData → Option EventData) where
  -- what `Publish` does to an entry that is not terminal
  unfoldable pub publish_entry : ℕ → ℕ → String → String → EventData → Entry → Entry
  unfolding offer_all trim
  publish_entry now max id kind payload e =
      let filled = insert_missing "job_id" (text id) payload in
      let status = text_at "status" filled in
      let ev : Event = record {
        sequence = e.next_seq + 1;
        kind = kind;
        payload = clone_event_data json filled;
      } in
      record e {
        status = if str_eq status "" then e.status else status;
        events = trim max (e.events ++ ev ∷ []);
        subscribers = offer_all ev e.subscribers;
        next_seq = e.next_seq + 1;
        updated_at = now;
      }

  unfoldable pub publish : ℕ → String → String → EventData → Registry → Registry × Bool
  publish now id kind payload r = elim (lookup id r.jobs) [
    | none ↦ (r, false)
    | some e ↦ if e.terminal then (r, false) else (
      record r { jobs = insert id (publish_entry now r.max_events id kind payload e) r.jobs },
      true,
    )
  ]

  -- what `markTerminal` does to an entry that is not terminal, and the channels that it closes;
  -- closing a closed channel panics
  unfoldable pub finish_entry : ℕ → String → Entry → Option (Entry × List Channel)
  finish_entry now status e = if e.done_closed then none else do
    shut ← close_all e.subscribers
    some (
      record e {
        status = status;
        terminal = true;
        updated_at = now;
        done_closed = true;
        subscribers = [];
      },
      shut,
    )

  unfoldable pub mark_terminal : ℕ → String → String → Registry → Option Registry
  unfolding finish_entry
  mark_terminal now id status r = elim (lookup id r.jobs) [
    | none ↦ some r
    | some e ↦ if e.terminal then some r else do
      (e', shut) ← finish_entry now status e
      some (record r { jobs = insert id e' r.jobs; released = r.released ++ shut })
  ]

  -- publish, and mark terminal if that was done; `later` is the time that the second step reads
  unfoldable pub finish :
      ℕ → ℕ → String → String → String → EventData → Registry → Option (Registry × Bool)
  finish now later id kind status payload r =
      let (r', published) = publish now id kind payload r in
      if not published
      then some (r', false)
      else do r'' ← mark_terminal later id status r'; some (r'', true)

  unfoldable pub complete :
      ℕ → ℕ → String → String → EventData → Registry → Option (Registry × Bool)
  unfolding finish
  complete now later id status payload =
      let s = (if str_eq status "" then "completed" else status) in
      finish now later id "completion" s (insert "status" (text s) payload)

  unfoldable pub pause_for_approval :
      ℕ → ℕ → String → EventData → Registry → Option (Registry × Bool)
  unfolding finish
  pause_for_approval now later id payload =
      finish now later id "approval_required" "approval_required"
        (insert "status" (text "approval_required") payload)

  unfoldable pub fail : ℕ → ℕ → String → String → EventData → Registry → Option (Registry × Bool)
  unfolding finish
  fail now later id message payload =
      let d = (if str_eq message "" then payload else insert "message" (text message) payload) in
      finish now later id "error" "failed" (insert "status" (text "failed") d)

  -- the snapshot, the channel's number (none for the closed channel of a finished job), or `none`
  unfoldable pub subscribe : String → Registry → Registry × Option (Snapshot × Option ℕ)
  subscribe id r = elim (lookup id r.jobs) [
    | none ↦ (r, none)
    | some e ↦ if e.terminal then (r, some (snapshot_for_entry json e, none)) else (
      record r {
        jobs =
            insert id
              (record e {
                next_sub_id = e.next_sub_id + 1;
                subscribers =
                    (e.next_sub_id + 1, record { waiting = []; closed = false }) ∷ e.subscribers;
              })
              r.jobs;
      },
      some (snapshot_for_entry json e, some (e.next_sub_id + 1)),
    )
  ]

  unfoldable pub snapshot : String → Registry → Option Snapshot
  snapshot id r = do e ← lookup id r.jobs; some (snapshot_for_entry json e)

-- the channel under a number
unfoldable pub find_sub : ℕ → List (ℕ × Channel) → Option Channel
find_sub sub [] = none
find_sub sub ((n, ch) ∷ subs) = if n == sub then some ch else find_sub sub subs

unfoldable pub unsubscribe_entry : String → ℕ → Entry → Registry → Option Registry
unsubscribe_entry id sub e r = elim (find_sub sub e.subscribers) [
  | none ↦ some r
  | some ch ↦ do
    shut ← close ch
    some (record r {
      jobs =
          insert id (record e { subscribers = keep (λ s. not (s.0 == sub)) e.subscribers }) r.jobs;
      released = r.released ++ shut ∷ [];
    })
]

-- the closure that `Subscribe` returns
unfoldable pub unsubscribe : String → ℕ → Registry → Option Registry
unfolding find_sub unsubscribe_entry
unsubscribe id sub r = elim (lookup id r.jobs) [
  | none ↦ some r
  | some e ↦ unsubscribe_entry id sub e r
]
