-- ===== src/Jobs/Registry.antt =====
-- internal/jobs/registry.go: the operations. Each runs under the registry's lock but `Complete`, `Fail`
-- and `PauseForApproval`, which take it twice. `none` for a whole operation is a Go panic. Times are
-- nanoseconds; an operation is given the time that it reads.
use or3_intern.Base.{
  ℕ, zero, suc, ◌-◌, ◌*◌, ◌==◌, String, str_eq, Bool, true, false, not, ◌&&◌, ◌||◌, Option, none,
  some, List, [], ◌∷◌, map, length, ltb, leb, if◌then◌else◌,
}
use or3_intern.Base.Int.{ℤ, pos, negsuc}
use or3_intern.Base.Assoc.{lookup, insert, delete}
use or3_intern.Jobs.Events.{EventData, Event, Channel, clone_event_data}

pub record Entry : Type 0 where
  pub id : String
  pub kind : String
  pub status : String
  pub events : List Event
  pub subscribers : List (ℕ × Channel)
  pub next_sub_id : ℕ
  pub next_seq : ℕ
  pub cancel : Option ℕ  -- a `context.CancelFunc`, by a name for it
  pub done_closed : Bool  -- whether the channel `done` is closed
  pub terminal : Bool
  pub created_at : ℕ
  pub updated_at : ℕ

pub record Registry : Type 0 where
  pub jobs : List (String × Entry)
  pub retention : ℕ
  pub max_tracked : ℕ
  pub max_events : ℕ
  -- no field of the source: the channels that were closed, as their receivers still hold them
  pub released : List Channel

abbrev pub default_retention : ℕ
default_retention = 2 * 60 * 1000000000

or_default : ℕ → ℤ → ℕ
or_default d (pos n) = if n == 0 then d else n
or_default d (negsuc n) = d

unfoldable pub new_registry : ℤ → ℤ → Registry
unfolding or_default
new_registry retention max_tracked = record {
  jobs = [];
  retention = or_default default_retention retention;
  max_tracked = or_default 256 max_tracked;
  max_events = 256;
  released = [];
}

pub record Snapshot : Type 0 where
  pub id : String
  pub kind : String
  pub status : String
  pub events : List Event
  pub created_at : ℕ
  pub updated_at : ℕ

copy_event : (EventData → Option EventData) → Event → Event
copy_event json ev = record ev { payload = clone_event_data json ev.payload }

module _ (json : EventData → Option EventData) where
  unfoldable pub snapshot_for_entry : Entry → Snapshot
  unfolding copy_event
  snapshot_for_entry e = record {
    id = e.id;
    kind = e.kind;
    status = e.status;
    events = map (copy_event json) e.events;
    created_at = e.created_at;
    updated_at = e.updated_at;
  }

-- the range loop of `cleanupLocked`
unfoldable pub is_stale : ℕ → ℕ → Entry → Bool
is_stale now retention e = e.terminal && ltb retention (now - e.updated_at)

unfoldable pub drop_stale : ℕ → ℕ → List (String × Entry) → List (String × Entry)
drop_stale now retention [] = []
drop_stale now retention ((id, e) ∷ m) =
    let rest = drop_stale now retention m in
    if is_stale now retention e then rest else (id, e) ∷ rest

-- the range loop of `evictOldestLocked`: the terminal entry with the earliest update; the empty
-- identifier stands for none, as in the source
unfoldable pub consider : String × ℕ → String → Entry → String × ℕ
consider (oldest_id, oldest) id e =
    if not e.terminal
    then (oldest_id, oldest)
    else if str_eq oldest_id "" || ltb e.updated_at oldest
    then (id, e.updated_at)
    else (oldest_id, oldest)

unfoldable pub find_oldest : String × ℕ → List (String × Entry) → String × ℕ
find_oldest best [] = best
find_oldest best ((id, e) ∷ m) = find_oldest (consider best id e) m

-- `for len(r.jobs) > r.maxTracked { if !r.evictOldestLocked(false) { break } }`, with fuel
unfoldable pub evict : ℕ → ℕ → List (String × Entry) → List (String × Entry)
evict zero max m = m
evict (suc fuel) max m =
    let id = (find_oldest ("", 0) m).0 in
    let rest = evict fuel max (delete id m) in
    if leb (length m) max then m else if str_eq id "" then m else rest

-- every round deletes an entry, so as many rounds as entries are enough
unfoldable pub cleanup : ℕ → Registry → Registry
cleanup now r =
    let m = drop_stale now r.retention r.jobs in
    record r { jobs = evict (length m) r.max_tracked m }

unfoldable pub register_with_id : ℕ → String → String → Registry → Registry × Entry
register_with_id now id kind r =
    let r' = cleanup now r in
    let e : Entry = record {
      id = id;
      kind = kind;
      status = "queued";
      events = [];
      subscribers = [];
      next_sub_id = 0;
      next_seq = 0;
      cancel = none;
      done_closed = false;
      terminal = false;
      created_at = now;
      updated_at = now;
    } in
    (record r' { jobs = insert id e r'.jobs }, e)

-- `r.jobs[id]`, changed in place by `f`; `false` if there is none
unfoldable pub with_entry : (Entry → Entry) → String → Registry → Registry × Bool
with_entry f id r = elim (lookup id r.jobs) [
  | none ↦ (r, false)
  | some e ↦ (record r { jobs = insert id (f e) r.jobs }, true)
]

unfoldable pub attach_cancel : ℕ → String → ℕ → Registry → Registry × Bool
unfolding with_entry
attach_cancel now id cancel =
    with_entry (λ e. record e { cancel = some cancel; updated_at = now }) id

-- the function that is called, if there is one
unfoldable pub cancel_of : String → Registry → Option ℕ
cancel_of id r = elim (lookup id r.jobs) [ none ↦ none | some e ↦ e.cancel ]

unfoldable pub reopen : ℕ → String → Registry → Registry × Bool
unfolding with_entry
reopen now id =
    with_entry
      (λ e. record e {
        terminal = false;
        status = "running";
        done_closed = false;
        updated_at = now;
      })
      id
