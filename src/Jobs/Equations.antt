-- ===== src/Jobs/Equations.antt =====
-- The operations on a job by the entry that is found, for proofs that keep them shut.
use or3_intern.Base.{
  ℕ, ◌+◌, not, ◌==◌, keep, ◌∷◌, ◌≡◌, String, true, false, none, some, List, [], ◌++◌, Option, arith,
}
use or3_intern.Base.Assoc.{lookup, insert}
use or3_intern.Jobs.Events.{EventData, Channel, close, close_all}
use or3_intern.Jobs.Registry.{Entry, Registry, snapshot_for_entry}
use or3_intern.Jobs.Publish.{
  publish, publish_entry, mark_terminal, finish_entry, subscribe, unsubscribe, unsubscribe_entry,
  find_sub,
}

module _ (json : EventData → Option EventData) (now : ℕ) (id : String) (r : Registry) where
  pub publish_missing :
      (kind : String) (payload : EventData)
      → lookup id r.jobs ≡ none
      → publish json now id kind payload r ≡ (r, false)
  unfolding publish
  publish_missing kind payload h = ground arith

  pub publish_over :
      (kind : String) (payload : EventData) (e : Entry)
      → lookup id r.jobs ≡ some e
      → e.terminal ≡ true
      → publish json now id kind payload r ≡ (r, false)
  unfolding publish
  publish_over kind payload e h over = ground arith

  pub publish_live :
      (kind : String) (payload : EventData) (e : Entry)
      → lookup id r.jobs ≡ some e
      → e.terminal ≡ false
      → publish json now id kind payload r ≡ (
        record r {
          jobs = insert id (publish_entry json now r.max_events id kind payload e) r.jobs;
        },
        true,
      )
  unfolding publish
  publish_live kind payload e h live = ground arith

  pub mark_terminal_missing :
      (status : String) → lookup id r.jobs ≡ none → mark_terminal json now id status r ≡ some r
  unfolding mark_terminal
  mark_terminal_missing status h = ground arith

  pub mark_terminal_over :
      (status : String) (e : Entry)
      → lookup id r.jobs ≡ some e
      → e.terminal ≡ true
      → mark_terminal json now id status r ≡ some r
  unfolding mark_terminal
  mark_terminal_over status e h over = ground arith

  -- the entry of a job that is finished
  abbrev pub finished : String → Entry → Entry
  finished status e = record e {
    status = status;
    terminal = true;
    updated_at = now;
    done_closed = true;
    subscribers = [];
  }

  pub mark_terminal_live :
      (status : String) (e : Entry) (shut : List Channel)
      → lookup id r.jobs ≡ some e
      → e.terminal ≡ false
      → e.done_closed ≡ false
      → close_all e.subscribers ≡ some shut
      → mark_terminal json now id status r
        ≡ some (record r {
          jobs = insert id (finished status e) r.jobs;
          released = r.released ++ shut;
        })
  unfolding mark_terminal finish_entry
  mark_terminal_live status e shut h live opened closed = ground arith

-- the entry of a job with one more subscriber
abbrev pub joined : Entry → Entry
joined e = record e {
  next_sub_id = e.next_sub_id + 1;
  subscribers = (e.next_sub_id + 1, record { waiting = []; closed = false }) ∷ e.subscribers;
}

module _ (json : EventData → Option EventData) (id : String) (r : Registry) where
  pub subscribe_missing : lookup id r.jobs ≡ none → subscribe json id r ≡ (r, none)
  unfolding subscribe
  subscribe_missing h = ground arith

  pub subscribe_over :
      (e : Entry)
      → lookup id r.jobs ≡ some e
      → e.terminal ≡ true
      → subscribe json id r ≡ (r, some (snapshot_for_entry json e, none))
  unfolding subscribe
  subscribe_over e h over = ground arith

  pub subscribe_live :
      (e : Entry)
      → lookup id r.jobs ≡ some e
      → e.terminal ≡ false
      → subscribe json id r ≡ (
        record r { jobs = insert id (joined e) r.jobs },
        some (snapshot_for_entry json e, some (e.next_sub_id + 1)),
      )
  unfolding subscribe
  subscribe_live e h live = ground arith

-- the entry of a job without one subscriber
abbrev pub left : ℕ → Entry → Entry
left sub e = record e { subscribers = keep (λ s. not (s.0 == sub)) e.subscribers }

module _ (id : String) (sub : ℕ) (r : Registry) where
  pub unsubscribe_missing : lookup id r.jobs ≡ none → unsubscribe id sub r ≡ some r
  unfolding unsubscribe
  unsubscribe_missing h = ground arith

  pub unsubscribe_gone :
      (e : Entry)
      → lookup id r.jobs ≡ some e
      → find_sub sub e.subscribers ≡ none
      → unsubscribe id sub r ≡ some r
  unfolding unsubscribe unsubscribe_entry
  unsubscribe_gone e h gone = ground arith

  pub unsubscribe_found :
      (e : Entry) (ch : Channel)
      → lookup id r.jobs ≡ some e
      → find_sub sub e.subscribers ≡ some ch
      → ch.closed ≡ false
      → unsubscribe id sub r
        ≡ some (record r {
          jobs = insert id (left sub e) r.jobs;
          released = r.released ++ record ch { closed = true } ∷ [];
        })
  unfolding unsubscribe unsubscribe_entry close
  unsubscribe_found e ch h found opened = ground arith
