-- ===== src/SecureConn/Replay.antt =====
-- internal/secureconn/frame.go: the window that blocks repeated frames. A map used as a set is a list
-- without order; `uint64` sums wrap.
pub mod Invariant
pub mod Once
pub mod Bounds
use or3_intern.Base.{
  ℕ, ◌+◌, ◌-◌, ◌%◌, ◌^◌, Bool, true, false, ◌&&◌, Option, none, some, List, [], ◌∷◌, keep, elem,
  ltb, leb, ◌==◌, if◌then◌else◌,
}
use or3_intern.Base.Int.{ℤ, pos, negsuc}

pub data Blocked : Type 0 where
  order_invalid repeated old : Blocked

pub record ReplayWindow : Type 0 where
  pub max_seen : ℕ  -- uint64
  pub seen : List ℕ
  pub capacity : ℕ  -- an `int` that the constructor makes positive

abbrev pub default_capacity : ℕ
default_capacity = 512

-- `if capacity <= 0 { capacity = DefaultReplayWindowCap }`
or_default : ℤ → ℕ
or_default (pos n) = if n == 0 then default_capacity else n
or_default (negsuc n) = default_capacity

unfoldable pub new_replay_window : ℤ → ReplayWindow
unfolding or_default
new_replay_window capacity = record { max_seen = 0; seen = []; capacity = or_default capacity }

-- what `Accept` does once nothing blocks the sequence number
unfoldable pub insert : ReplayWindow → ℕ → ReplayWindow
insert w s =
    let top = if ltb w.max_seen s then s else w.max_seen in
    let cutoff = if ltb w.capacity top then top - w.capacity else 0 in
    record w { max_seen = top; seen = keep (λ item. leb cutoff item) (s ∷ w.seen) }

unfoldable pub accept : ReplayWindow → ℕ → ReplayWindow × Option Blocked
accept w s =
    if s == 0
    then (w, some order_invalid)
    else if elem s w.seen
    then (w, some repeated)
    else if ltb w.capacity w.max_seen && leb ((s + w.capacity) % 2 ^ 64) w.max_seen
    then (w, some old)
    else (insert w s, none)

-- A connection's life: the frames offered one after the other, and those that were let through,
-- latest first.
accept_next : ReplayWindow × List ℕ → ℕ → ReplayWindow × List ℕ
accept_next (w, accepted) s =
    let (w', verdict) = accept w s in (w', elim verdict [ none ↦ s ∷ accepted | some _ ↦ accepted ])

unfoldable pub accept_all : ReplayWindow × List ℕ → List ℕ → ReplayWindow × List ℕ
unfolding accept_next
accept_all st [] = st
accept_all st (s ∷ ss) = accept_all (accept_next st s) ss
