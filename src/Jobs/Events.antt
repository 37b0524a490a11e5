-- ===== src/Jobs/Events.antt =====
-- internal/jobs/registry.go: events, their data and the buffered channels that carry them.
use or3_intern.Base.{
  ℕ, String, Bool, true, Option, none, some, List, [], ◌∷◌, ◌++◌, length, ltb, if◌then◌else◌,
}
use or3_intern.Base.{◌>>=◌}
use or3_intern.Base.Assoc.{lookup, insert}

-- a value of `map[string]any`: a string, or anything else, by a name for it
pub data Value : Type 0 where
  text : String → Value
  opaque : ℕ → Value

abbrev pub EventData : Type 0
EventData = List (String × Value)

pub record Event : Type 0 where
  pub sequence : ℕ  -- an `int64` counted up from 1
  pub kind : String
  pub payload : EventData

-- a buffered channel as its receiver will see it: what is waiting, and whether it is closed
pub record Channel : Type 0 where
  pub waiting : List Event
  pub closed : Bool

abbrev pub subscriber_buffer : ℕ
subscriber_buffer = 128

-- `select { case ch <- event: default: }` on an open channel: a full one drops the event
unfoldable pub offer : Event → Channel → Channel
offer e ch =
    if ltb (length ch.waiting) subscriber_buffer
    then record ch { waiting = ch.waiting ++ e ∷ [] }
    else ch

-- `close(ch)`, which panics on a closed channel
unfoldable pub close : Channel → Option Channel
close ch = if ch.closed then none else some (record ch { closed = true })

unfoldable pub close_all : List (ℕ × Channel) → Option (List Channel)
close_all [] = some []
close_all ((sub, ch) ∷ subs) = do shut ← close ch; rest ← close_all subs; some (shut ∷ rest)

-- the text under a key, `v, ok := data[k].(string)`
text_of : Option Value → String
text_of none = ""
text_of (some (text s)) = s
text_of (some (opaque n)) = ""

unfoldable pub text_at : String → EventData → String
unfolding text_of
text_at k d = text_of (lookup k d)

-- `if _, ok := data[k]; !ok { data[k] = v }`
unfoldable pub insert_missing : String → Value → EventData → EventData
insert_missing k v d = elim (lookup k d) [ none ↦ insert k v d | some _ ↦ d ]

-- A copy goes through JSON, a library of others: `none` is an error of its encoder or decoder.
unfoldable pub clone_event_data : (EventData → Option EventData) → EventData → EventData
clone_event_data json [] = []
clone_event_data json (x ∷ d) = elim (json (x ∷ d)) [ none ↦ [] | some d' ↦ d' ]
