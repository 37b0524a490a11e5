-- ===== src/Log/Buffer.antt =====
-- internal/log/buffer.go: the buffer, its subscribers and its operations, which the source runs under the
-- buffer's mutex. Operations on a nil buffer are left out.
use or3_intern.Base.{
  ℕ, ◌+◌, ◌%◌, ◌^◌, ◌==◌, Bool, true, false, not, leb, ltb, List, [], ◌∷◌, ◌++◌, length, drop, keep,
  if◌then◌else◌,
}
use or3_intern.Base.Int.{ℤ, pos, negsuc}
use or3_intern.Log.Entries.{Entry, Filter, Patterns, normalize_entry, matches}

abbrev pub default_buffer_size : ℕ
default_buffer_size = 1000

-- a buffered channel: its size, and what waits in it
pub record Channel : Type 0 where
  pub size : ℕ
  pub waiting : List Entry
  pub closed : Bool

-- `Buffer`. `subscribers` has a channel's number for the channel. `gone` is no field of the source: the
-- closed channels, as their receivers still hold them.
pub record Buffer : Type 0 where
  pub max : ℕ
  pub next : ℕ  -- a `uint64`
  pub entries : List Entry
  pub subscribers : List (ℕ × Channel)
  pub channels : ℕ
  pub gone : List (ℕ × Channel)

-- a size, with what stands for it where it is not positive
unfoldable pub size_or : ℕ → ℤ → ℕ
size_or default (pos n) = if n == 0 then default else n
size_or default (negsuc n) = default

-- `NewBuffer`
unfoldable pub new_buffer : ℤ → Buffer
new_buffer max = record {
  max = size_or default_buffer_size max;
  next = 0;
  entries = [];
  subscribers = [];
  channels = 0;
  gone = [];
}

-- `select { case subscriber <- entry: default: }`
unfoldable pub offer : Entry → List (ℕ × Channel) → List (ℕ × Channel)
offer e [] = []
offer e ((i, ch) ∷ subscribers) =
    let sent =
      if ltb (length ch.waiting) ch.size
      then record ch { waiting = ch.waiting ++ e ∷ [] }
      else ch in
    (i, sent) ∷ offer e subscribers

-- A full buffer is shifted by one place and its last place written.
unfoldable pub store : ℕ → Entry → List Entry → List Entry
store max e entries =
    if leb max (length entries) then drop 1 entries ++ e ∷ [] else entries ++ e ∷ []

-- `Append`, with what it returns
unfoldable pub append : Patterns → ℕ → Entry → Buffer → Buffer × Entry
append p now e b =
    let next = (b.next + 1) % 2 ^ 64 in
    let stored = record (normalize_entry p now e) { id = next } in
    (
      record b {
        next = next;
        entries = store b.max stored b.entries;
        subscribers = offer stored b.subscribers;
      },
      stored,
    )

-- `Snapshot`
unfoldable pub snapshot : Patterns → Filter → Buffer → List Entry
snapshot p f b = keep (matches p f) b.entries

-- `Subscribe`, with the number of the channel
unfoldable pub subscribe : ℤ → Buffer → Buffer × ℕ
subscribe size b = (
  record b {
    subscribers =
        (b.channels, record { size = size_or 64 size; waiting = []; closed = false })
        ∷ b.subscribers;
    channels = b.channels + 1;
  },
  b.channels,
)

close_all : List (ℕ × Channel) → List (ℕ × Channel)
close_all [] = []
close_all ((i, ch) ∷ channels) = (i, record ch { closed = true }) ∷ close_all channels

-- The function that `Subscribe` returns. Its second call does nothing, and neither does this on a number
-- that is no subscriber's any more.
unfoldable pub unsubscribe : ℕ → Buffer → Buffer
unfolding close_all
unsubscribe i b = record b {
  subscribers = keep (λ s. not (s.0 == i)) b.subscribers;
  gone = close_all (keep (λ s. s.0 == i) b.subscribers) ++ b.gone;
}

pub data Op : Type 0 where
  appending : ℕ → Entry → Op  -- the time, and the entry
  subscribing : ℤ → Op
  unsubscribing : ℕ → Op

unfoldable pub run : Patterns → List Op → Buffer → Buffer
run p [] b = b
run p (appending now e ∷ ops) b = run p ops (append p now e b).0
run p (subscribing size ∷ ops) b = run p ops (subscribe size b).0
run p (unsubscribing i ∷ ops) b = run p ops (unsubscribe i b)
