-- ===== src/Cron/Machine.antt =====
-- The service under any sequence of its operations, with the timers that fire and the runs that end in
-- between, in any order and with any failures of the store.
use mathlib.Core.Option.{some-injective}
use or3_intern.Base.{
  inl, inr, Option-cases, ℕ, ◌≡◌, refl, ap, sym, ◌∙◌, Bool, true, String, none, some, List, [],
  Distinct,
}
use or3_intern.Base.Assoc.{lookup}
use or3_intern.Base.Table.{find}
use or3_intern.Cron.Types.{CronJob, Calendar}
use or3_intern.Cron.Clocks.{CronLibrary}
use or3_intern.Cron.Service.{Service, Io, Times, find_job}
use or3_intern.Cron.Operations.{add, update, set_enabled, remove}
use or3_intern.Cron.Runs.{Ran, fire, run_finish, start, stop}
use or3_intern.Cron.Sound.{Sound, is_enabled, job_ids, registered}
use or3_intern.Cron.Keeps.{add-Sound, update-Sound, set_enabled-Sound}
use or3_intern.Cron.KeepsRuns.{remove-Sound, fire-Sound, run_finish-Sound}
use or3_intern.Cron.KeepsStart.{start-Sound, stop-Sound}

-- `New`, over a store
unfoldable pub created : {L : CronLibrary} → ℕ → List CronJob → Service L
created next jobs = record {
  c = none;
  entries = [];
  timers = [];
  clock = record { next = next; pending = [] };
  disk = jobs;
}

module _ {L : CronLibrary} (calendar : Calendar) where
  pub data Reach : Service L → Type 0 where
    new : (next : ℕ) (jobs : List CronJob) → Distinct (job_ids jobs) → Reach (created next jobs)
    started :
        {s : Service L}
        → Reach s
        → (io : Io) (times : ℕ → Times) → Reach (start calendar io times s).0
    stopped : {s : Service L} → Reach s → Reach (stop s)
    job_added :
        {s : Service L}
        → Reach s
        → (io : Io) (times : Times) (random : String) (job : CronJob)
        → Reach (add calendar io times random job s).0
    updated :
        {s : Service L}
        → Reach s
        → (io : Io) (times : Times) (id : String) (job : CronJob)
        → Reach (update calendar io times id job s).0
    toggled :
        {s : Service L}
        → Reach s
        → (io : Io) (times : Times) (id : String) (enabled : Bool)
        → Reach (set_enabled calendar io times id enabled s).0
    removed : {s : Service L} → Reach s → (io : Io) (id : String) → Reach (remove io id s).0
    fired : {s : Service L} → Reach s → (handle : ℕ) → Reach (fire handle s)
    ran :
        {s : Service L}
        → Reach s
        → (io : Io) (times : Times) (id : String) (outcome : Ran)
        → Reach (run_finish calendar io times id outcome s).0

  pub Reach-Sound : {s : Service L} → Reach s → Sound s
  unfolding created registered lookup find
  Reach-Sound (new next jobs d) = record {
    owned = λ e id is. absurd (cc);
    timed = λ h id is. absurd (cc);
    enabled_entry = λ id e is. absurd (cc);
    enabled_timer = λ id h is. absurd (cc);
    alone = λ id e h is. absurd (cc);
    idle = λ e. (refl, refl);
    distinct = d;
  }
  Reach-Sound (started r io times) = start-Sound calendar times io _ (Reach-Sound r)
  Reach-Sound (stopped r) = stop-Sound _ (Reach-Sound r)
  Reach-Sound (job_added r io times random job) =
      add-Sound calendar io times random job _ (Reach-Sound r)
  Reach-Sound (updated r io times id job) = update-Sound calendar io times id job _ (Reach-Sound r)
  Reach-Sound (toggled r io times id enabled) =
      set_enabled-Sound calendar io times id enabled _ (Reach-Sound r)
  Reach-Sound (removed r io id) = remove-Sound io id _ (Reach-Sound r)
  Reach-Sound (fired r handle) = fire-Sound handle _ (Reach-Sound r)
  Reach-Sound (ran r io times id outcome) =
      run_finish-Sound calendar io times id outcome _ (Reach-Sound r)

-- what can make a job run by itself: an entry of the scheduler, or a pending timer
pub data Registration : Type 0 where
  entry timer : ℕ → Registration

enabled_found :
    (id : String) (jobs : List CronJob)
    → is_enabled id jobs ≡ true
    → (j : CronJob) × (find_job id jobs ≡ some j) × (j.enabled ≡ true)
unfolding is_enabled
enabled_found id jobs e = elim (Option-cases (find_job id jobs)) [
  | inl absent ↦ absurd (cc (rw (absent, is_enabled) at e))
  | inr (j, found) ↦ (j, found, rw (found, is_enabled) at e)
]

module _ {L : CronLibrary} where
  abbrev pub IsLive : Registration → String → Service L → Type 0
  IsLive (entry e) id s = registered L s.c e ≡ some id
  IsLive (timer h) id s = find h s.clock.pending ≡ some id

  live_enabled :
      (a : Registration) (id : String) (s : Service L)
      → Sound s
      → IsLive a id s
      → is_enabled id s.disk ≡ true
  live_enabled (entry e) id s v live = v.enabled_entry id e (v.owned e id live)
  live_enabled (timer h) id s v live = v.enabled_timer id h (v.timed h id live)

  live_once :
      (a b : Registration) (id : String) (s : Service L)
      → Sound s
      → IsLive a id s
      → IsLive b id s
      → a ≡ b
  live_once (entry e) (entry f) id s v la lb =
      ap entry (some-injective e f (sym (v.owned e id la) ∙ v.owned f id lb))
  live_once (entry e) (timer h) id s v la lb =
      absurd (v.alone id e h (v.owned e id la) (v.timed h id lb))
  live_once (timer h) (entry e) id s v la lb =
      absurd (v.alone id e h (v.owned e id lb) (v.timed h id la))
  live_once (timer h) (timer k) id s v la lb =
      ap timer (some-injective h k (sym (v.timed h id la) ∙ v.timed k id lb))

  -- After any sequence of operations, whatever fails of the store: what can make a job run by itself,
  -- an entry of the scheduler or a pending timer, is of a job that is in the store and enabled there,
  -- and no job has two.
  pub Reach-live :
      (calendar : Calendar) {s : Service L} (id : String) (a b : Registration)
      → Reach calendar s
      → IsLive a id s
      → IsLive b id s
      → (a ≡ b) × ((j : CronJob) × (find_job id s.disk ≡ some j) × (j.enabled ≡ true))
  Reach-live calendar {s} id a b r la lb =
      let v : Sound s = Reach-Sound calendar r in
      (live_once a b id s v la lb, enabled_found id s.disk (live_enabled a id s v la))
