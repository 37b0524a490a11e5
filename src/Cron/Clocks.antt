-- ===== src/Cron/Clocks.antt =====
-- What internal/cron/cron.go sets going: the timers of Go's `time.AfterFunc`, and the entries of
-- github.com/robfig/cron/v3, a library that is a parameter here.
use or3_intern.Base.{
  ℕ, ◌+◌, ◌==◌, ==_iff, ◌≡◌, Bool, true, false, String, Option, none, some, List, [], ◌∷◌, arith,
  if◌then◌else◌,
}
use or3_intern.Base.Int.{ℤ}
use or3_intern.Base.Table.{find}

-- The texts that `AddFunc` is given: "@every " and a duration in nanoseconds, or an expression, with
-- "CRON_TZ=" and a zone before it.
pub data Spec : Type 0 where
  every_spec : ℤ → Spec
  expr_spec : Option String → String → Spec

-- The library's `Cron`. `entry` is what `Entry(id)` shows: here the job whose function is registered.
-- Its laws are what the package documents.
pub record CronLibrary : Type 1 where
  pub Scheduler : Type 0
  pub new : Scheduler
  pub start : Scheduler → Scheduler
  pub add_func : Scheduler → Spec → String → Option (ℕ × Scheduler)
  pub remove : Scheduler → ℕ → Scheduler
  pub entry : Scheduler → ℕ → Option String
  pub running : Scheduler → Bool
  pub entry-new : (e : ℕ) → entry new e ≡ none
  pub entry-start : (c : Scheduler) (e : ℕ) → entry (start c) e ≡ entry c e
  pub entry-remove :
      (c : Scheduler) (e x : ℕ) → entry (remove c e) x ≡ (if e == x then none else entry c x)
  pub entry-add_func :
      (c : Scheduler) (spec : Spec) (id : String) (e : ℕ) (after : Scheduler) (x : ℕ)
      → add_func c spec id ≡ some (e, after)
      → entry after x ≡ (if e == x then some id else entry c x)
  pub entry_fresh :
      (c : Scheduler) (spec : Spec) (id : String) (e : ℕ) (after : Scheduler)
      → add_func c spec id ≡ some (e, after)
      → entry c e ≡ none
  pub running-new : running new ≡ false
  pub running-start : (c : Scheduler) → running (start c) ≡ true

-- The timers that have neither fired nor been stopped, each with the job that it runs, and the number
-- of the next.
pub record Timers : Type 0 where
  pub next : ℕ
  pub pending : List (ℕ × String)

-- time.AfterFunc
unfoldable pub after_func : String → Timers → ℕ × Timers
after_func id t = (t.next, record { next = t.next + 1; pending = (t.next, id) ∷ t.pending })

unfoldable pub without : ℕ → List (ℕ × String) → List (ℕ × String)
without handle [] = []
without handle ((h, id) ∷ rest) =
    let others = without handle rest in if h == handle then others else (h, id) ∷ others

-- Stop of a timer; a timer that fires leaves the pending ones too
unfoldable pub stop_timer : ℕ → Timers → Timers
unfolding without
stop_timer handle t = record t { pending = without handle t.pending }

pub find-without :
    (handle h : ℕ) (rest : List (ℕ × String))
    → find h (without handle rest) ≡ (if handle == h then none else find h rest)
unfolding without find
find-without handle h [] = ground arith
find-without handle h ((i, id) ∷ rest) =
    ground (arith, ==_iff i h, ==_iff handle h, find-without handle h rest)
