-- ===== src/Cron/Liveness.antt =====
-- What `Start` of internal/cron/cron.go promises, and what a `Start` that failed leaves.
use mathlib.Core.Path.{subst}
use or3_intern.Base.{
  inl, inr, Bool-cases, ℕ, suc, ◌∷◌, ◌≡◌, refl, ap, ◌∙◌, Bool, true, false, String, Option, none,
  some, List, [], arith,
}
use or3_intern.Base.Assoc.{lookup}
use or3_intern.Cron.Types.{CronJob, load_failed, Calendar}
use or3_intern.Cron.Schedule.{prepare_job}
use or3_intern.Cron.Clocks.{CronLibrary}
use or3_intern.Cron.Service.{Service, Io, Times, find_job}
use or3_intern.Cron.Runs.{start_jobs, launch, start_saved, start_ready, start}
use or3_intern.Cron.Sound.{Sound, registered}
use or3_intern.Cron.Machine.{Registration, entry, timer, IsLive, Reach, Reach-Sound}
use or3_intern.Cron.Running.{HasScheduler, arm-HasScheduler}
use or3_intern.Cron.Apart.{Apart, Has}
use or3_intern.Cron.Live.{IsRunnable, start_jobs-Live}

-- the scheduler runs
abbrev pub IsRunning : {L : CronLibrary} → Service L → Type 0
IsRunning {L} s = (c : L.Scheduler) × (s.c ≡ some c) × (L.running c ≡ true)

module _ {L : CronLibrary} where
  -- a service whose maps are empty
  fresh-Apart :
      (s : Service L) → (s.entries ≡ []) × (s.timers ≡ []) → Apart (record s { c = some L.new })
  unfolding lookup
  fresh-Apart s e = record {
    entry_own = λ k x p. absurd (cc (rw e.0 at p));
    timer_own = λ k h m p q. absurd (cc (rw e.1 at p));
    timer_below = λ k h p. absurd (cc (rw e.1 at p));
  }

  -- the store does not matter to a registration
  Has-disk :
      (a : Registration) (id : String) (jobs : List CronJob) (s : Service L)
      → Has a id s
      → Has a id (record s { disk = jobs })
  Has-disk (entry e) id jobs s has = has
  Has-disk (timer h) id jobs s has = has

  launch-Live :
      (a : Registration) (id : String) (s : Service L) (o : Option L.Scheduler)
      → s.c ≡ o
      → HasScheduler s
      → Has a id s
      → IsLive a id (launch s o) × IsRunning (launch s o)
  unfolding launch registered
  launch-Live a id s none is h has = absurd (cc (h.1))
  launch-Live (entry e) id s (some c) is h has =
      (L.entry-start c e ∙ (rw is at has), (L.start c, refl, L.running-start c))
  launch-Live (timer x) id s (some c) is h has = (has.0, (L.start c, refl, L.running-start c))

  start_again :
      (calendar : Calendar) (times : ℕ → Times) (io : Io) (s : Service L) (c : L.Scheduler)
      → s.c ≡ some c
      → io.lock ≡ true
      → start calendar io times s ≡ (s, none)
  unfolding start start_ready
  start_again calendar times io s c on locks = ground arith

module _ {L : CronLibrary} (calendar : Calendar) (times : ℕ → Times) where
  start_jobs-HasScheduler :
      (i : ℕ) (jobs : List CronJob) (s : Service L)
      → HasScheduler s
      → HasScheduler (start_jobs calendar times i jobs s).1
  unfolding start_jobs
  start_jobs-HasScheduler i [] s h = h
  start_jobs-HasScheduler i (j ∷ jobs) s h =
      start_jobs-HasScheduler (suc i) jobs _
        (arm-HasScheduler calendar (times i).armed (prepare_job calendar j (times i).prepared) s h)

  start_saved-Live :
      (b : Bool) (a : Registration) (id : String) (jobs : List CronJob) (s : Service L)
      → (start_saved b (jobs, s)).1 ≡ none
      → HasScheduler s
      → Has a id s
      → IsLive a id (start_saved b (jobs, s)).0 × IsRunning (start_saved b (jobs, s)).0
  unfolding start_saved
  start_saved-Live false a id jobs s e h has = absurd (cc)
  start_saved-Live true a id jobs s e h has =
      launch-Live a id (record s { disk = jobs }) s.c refl h (Has-disk a id jobs s has)

  start_ready-Live :
      (io : Io) (id : String) (job : CronJob) (s : Service L) (o : Option L.Scheduler)
      → s.c ≡ o
      → o ≡ none
      → Sound s
      → (start_ready calendar io times s o).1 ≡ none
      → find_job id s.disk ≡ some job
      → IsRunnable L calendar times job
      → ((a : Registration) × IsLive a id (start_ready calendar io times s o).0)
        × IsRunning (start_ready calendar io times s o).0
  unfolding start_ready
  start_ready-Live io id job s (some c) is off v e found runs = absurd (cc)
  start_ready-Live io id job s none is off v e found runs = elim (Bool-cases io.load) [
    | inr fails ↦ absurd (cc (rw fails at e))
    | inl reads ↦
        let fresh : Service L = record s { c = some L.new } in
        let (a, has) =
          start_jobs-Live calendar id job times 0 s.disk fresh v.distinct found runs (L.new, refl)
            (fresh-Apart s (v.idle is)) in
        let (live, running) =
          start_saved-Live io.save a id (start_jobs calendar times 0 s.disk fresh).0
            (start_jobs calendar times 0 s.disk fresh).1 (rw reads at e)
            (start_jobs-HasScheduler 0 s.disk fresh (L.new, refl)) has in
        rw reads ((a, live), running)
  ]

  -- `Start` of a service that was not started, in any state that its operations lead to: where it
  -- reports no error, the scheduler runs, and each job of the store that can run (it is enabled and
  -- valid, and it lies ahead, if it is to run once, or else the library accepts its schedule) has an
  -- entry in the scheduler or a pending timer.
  pub start-Live :
      (io : Io) (id : String) (job : CronJob) {s : Service L}
      → Reach calendar s
      → s.c ≡ none
      → (start calendar io times s).1 ≡ none
      → find_job id s.disk ≡ some job
      → IsRunnable L calendar times job
      → ((a : Registration) × IsLive a id (start calendar io times s).0)
        × IsRunning (start calendar io times s).0
  unfolding start
  start-Live io id job {s} r off e found runs = elim (Bool-cases io.lock) [
    | inr fails ↦ absurd (cc (rw fails at e))
    | inl locks ↦ rw locks (
        start_ready-Live io id job s s.c refl off (Reach-Sound calendar r) (rw locks at e) found
          runs)
  ]

  start_unread :
      (io : Io) (s : Service L)
      → s.c ≡ none
      → io.lock ≡ true
      → io.load ≡ false
      → start calendar io times s ≡ (record s { c = some L.new }, some load_failed)
  unfolding start start_ready
  start_unread io s off locks fails = ground arith

  -- nothing is live beside a scheduler that is new
  nothing_live :
      (s : Service L) (a : Registration) (id : String)
      → Sound s
      → s.c ≡ none
      → IsLive a id (record s { c = some L.new })
      → ⊥
  unfolding registered lookup
  nothing_live s (entry e) id v off live = cc (L.entry-new e, live)
  nothing_live s (timer h) id v off live =
      let e : lookup id s.timers ≡ some h = v.timed h id live in cc (rw (v.idle off).1 at e)

  -- Where `Start` of a service that was not started, in any state that its operations lead to, could not
  -- read the store, it says so and leaves a scheduler that does not run, and no job has an entry in it or
  -- a pending timer. A later `Start`, whatever the store then answers, reports success as soon as it gets
  -- the lock and leaves the service as it is.
  pub start-failed :
      (io : Io) {s : Service L} (later : Io) (times' : ℕ → Times)
      → Reach calendar s
      → s.c ≡ none
      → io.lock ≡ true
      → io.load ≡ false
      → later.lock ≡ true
      → let failed = (start calendar io times s).0 in
        ((start calendar io times s).1 ≡ some load_failed)
        × ((c : L.Scheduler) × (failed.c ≡ some c) × (L.running c ≡ false))
        × ((a : Registration) (id : String) → IsLive a id failed → ⊥)
        × (start calendar later times' failed ≡ (failed, none))
  start-failed io {s = s} later times' reach off locks fails locks' =
      let e : start calendar io times s ≡ (record s { c = some L.new }, some load_failed) =
        start_unread io s off locks fails in
      let new : (start calendar io times s).0.c ≡ some L.new = ap (λ p. p.0.c) e in
      (
        ap (λ p. p.1) e,
        (L.new, new, L.running-new),
        λ a id live.
            nothing_live s a id (Reach-Sound calendar reach) off
              (subst (IsLive a id) (ap (λ p. p.0) e) live),
        start_again calendar times' later (start calendar io times s).0 L.new new locks',
      )
