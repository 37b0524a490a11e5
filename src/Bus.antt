-- ===== src/Bus.antt =====
-- internal/bus/bus.go: the event bus. An operation on a nil bus is left out.
pub mod Machine
pub mod Delivery
use or3_intern.Base.{
  ℕ, ◌+◌, ◌%◌, ◌^◌, ◌==◌, String, Bool, true, false, not, ◌&&◌, ◌||◌, Option, none, some, List, [],
  ◌∷◌, ◌++◌, length, drop, keep, ltb, if◌then◌else◌,
}
use or3_intern.Base.Int.{ℤ, pos, negsuc}
use or3_intern.Base.Table.{find}

-- an event, by a name for it: the bus looks at none of its fields
abbrev pub Event : Type 0
Event = ℕ

abbrev pub default_buffer_size : ℕ
default_buffer_size = 128

abbrev pub max_buffer_size : ℕ
max_buffer_size = 1000000

-- `subscriberState`, with what waits in its channel
pub record Subscriber : Type 0 where
  pub waiting : List Event
  pub closed : Bool
  pub name : String
  pub dropped : ℕ  -- a `uint64`

-- The map `subscribers` has a channel's number for the channel. `gone` is no field of the source: what was
-- taken out of the map, as its receivers still hold it.
pub record Bus : Type 0 where
  pub buffer : ℕ
  pub closed : Bool
  pub legacy : Option ℕ
  pub legacy_used : Bool
  pub subscribers : List (ℕ × Subscriber)
  pub next : ℕ
  pub gone : List Subscriber

unfoldable pub new_subscriber : String → Subscriber
new_subscriber name = record { waiting = []; closed = false; name = name; dropped = 0 }

buffer_of : ℤ → ℕ
buffer_of (pos n) = if n == 0 then default_buffer_size else n
buffer_of (negsuc n) = default_buffer_size

-- `New`; `none` is its panic
unfoldable pub new_bus : ℤ → Option Bus
unfolding buffer_of new_subscriber
new_bus buffer =
    if ltb max_buffer_size (buffer_of buffer)
    then none
    else some (record {
      buffer = buffer_of buffer;
      closed = false;
      legacy = some 0;
      legacy_used = false;
      subscribers = (0, new_subscriber "legacy-worker-queue") ∷ [];
      next = 1;
      gone = [];
    })

-- `deliver`: a critical delivery waits for room, in which time the receiver takes `taken` events
unfoldable pub deliver : ℕ → Event → Bool → ℕ → Subscriber → Subscriber × Bool
deliver buffer ev wait taken s =
    let left =
      (if wait && not (ltb (length s.waiting) buffer) then drop taken s.waiting else s.waiting) in
    if s.closed
    then (s, false)
    else if ltb (length left) buffer
    then (record s { waiting = left ++ ev ∷ [] }, true)
    else (record s { waiting = left }, false)

-- `state.close`
unfoldable pub close_subscriber : Subscriber → Subscriber
close_subscriber s = if s.closed then s else record s { closed = true }

unfoldable pub is_legacy : Option ℕ → ℕ → Bool
is_legacy none ch = false
is_legacy (some l) ch = l == ch

unfoldable pub subscribe_named : String → Bus → Bus × Option ℕ
unfolding new_subscriber
subscribe_named name b = if b.closed then (b, none) else (
  record b { subscribers = (b.next, new_subscriber name) ∷ b.subscribers; next = b.next + 1 },
  some b.next,
)

-- the closure that `SubscribeNamed` returns; a second call and one after `Close` change nothing
unfoldable pub unsubscribe : ℕ → Bus → Bus
unfolding close_subscriber
unsubscribe ch b = elim (find ch b.subscribers) [
  | none ↦ b
  | some s ↦ record b {
    subscribers = keep (λ p. not (p.0 == ch)) b.subscribers;
    gone = close_subscriber s ∷ b.gone;
  }
]

-- one target of `Publish`: the subscriber after it and whether it was delivered
unfoldable pub publish_one : Bus → Event → ℕ → ℕ → Subscriber → Subscriber × Bool
unfolding deliver is_legacy
publish_one b ev taken ch s =
    let (s', delivered) = deliver b.buffer ev (is_legacy b.legacy ch && b.legacy_used) taken s in
    if delivered || (is_legacy b.legacy ch && not b.legacy_used)
    then (s', delivered)
    else (record s' { dropped = (s'.dropped + 1) % 2 ^ 64 }, false)

unfoldable pub publish_to : Bus → Event → ℕ → List (ℕ × Subscriber) → List (ℕ × Subscriber) × Bool
publish_to b ev taken [] = ([], false)
publish_to b ev taken ((ch, s) ∷ subs) =
    let (rest, delivered) = publish_to b ev taken subs in
    let (s', here) = publish_one b ev taken ch s in ((ch, s') ∷ rest, here || delivered)

-- `Publish`, with nothing in between its targets
unfoldable pub publish : Event → ℕ → Bus → Bus × Bool
unfolding publish_to
publish ev taken b =
    if b.closed
    then (b, false)
    else (let (subs, delivered) = publish_to b ev taken b.subscribers in
        (record b { subscribers = subs }, delivered))

close_all : List (ℕ × Subscriber) → List Subscriber
close_all [] = []
close_all ((ch, s) ∷ subs) = close_subscriber s ∷ close_all subs

-- `Close`; only its first call does anything, and it alone sets `closed`
unfoldable pub close : Bus → Bus
unfolding close_all
close b =
    if b.closed
    then b
    else record b { closed = true; subscribers = []; gone = close_all b.subscribers ++ b.gone }

-- `Channel`: the channel's number
unfoldable pub channel : Bus → Bus × ℕ
unfolding new_subscriber
channel b = elim b.legacy [
  | some l ↦ (record b { legacy_used = true }, l)
  | none ↦
      if b.closed
      then (
        record b {
          legacy = some b.next;
          next = b.next + 1;
          gone = record (new_subscriber "legacy-worker-queue") { closed = true } ∷ b.gone;
        },
        b.next,
      )
      else (
        record b {
          legacy = some b.next;
          next = b.next + 1;
          legacy_used = true;
          subscribers = (b.next, new_subscriber "legacy-worker-queue") ∷ b.subscribers;
        },
        b.next,
      )
]

pub record SubscriberHealth : Type 0 where
  pub name : String
  pub dropped : ℕ

unfoldable pub health_of : List (ℕ × Subscriber) → List SubscriberHealth
health_of [] = []
health_of ((ch, s) ∷ subs) = record { name = s.name; dropped = s.dropped } ∷ health_of subs

unfoldable pub health : Bus → List SubscriberHealth
unfolding health_of
health b = health_of b.subscribers
