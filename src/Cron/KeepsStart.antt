-- ===== src/Cron/KeepsStart.antt =====
-- `Start` and `Stop` of internal/cron/cron.go keep what holds of the service between operations.
use mathlib.Core.Path.{subst}
use or3_intern.Base.{
  inl, inr, Bool-cases, Option-cases, ℕ, suc, ==_iff, ◌≡◌, refl, ap, sym, ◌∙◌, Bool, true, false,
  String, str_eq, eq_iff, Option, none, some, List, [], ◌∷◌, All, arith,
}
use or3_intern.Base.Assoc.{lookup}
use or3_intern.Base.Table.{find}
use or3_intern.Cron.Types.{CronJob, Calendar}
use or3_intern.Cron.Schedule.{prepare_job}
use or3_intern.Cron.Clocks.{CronLibrary, Timers, stop_timer, find-without}
use or3_intern.Cron.Service.{Service, Io, Times, find_job, arm}
use or3_intern.Cron.Runs.{start_jobs, launch, start_saved, start_ready, start, stop_all, stop}
use or3_intern.Cron.Sound.{Sound, is_enabled, job_ids, registered}
use or3_intern.Cron.Arming.{arm-Sound}
use or3_intern.Cron.JobList.{All-find_job}
use or3_intern.Cron.ArmKeeps.{disk-arm}
use or3_intern.Cron.Keeps.{disk-Sound}

module _ {L : CronLibrary} where
  fresh-Sound : (s : Service L) → s.c ≡ none → Sound s → Sound (record s { c = some L.new })
  unfolding registered
  fresh-Sound s off v = record {
    owned = λ e id is. absurd (cc (is, L.entry-new e));
    timed = v.timed;
    enabled_entry = v.enabled_entry;
    enabled_timer = v.enabled_timer;
    alone = v.alone;
    idle = λ e. absurd (cc);
    distinct = v.distinct;
  }

  launch-Sound : (s : Service L) (o : Option L.Scheduler) → s.c ≡ o → Sound s → Sound (launch s o)
  unfolding launch registered
  launch-Sound s none is v = v
  launch-Sound s (some c) is v = record {
    owned = λ e id live. v.owned e id (rw is (sym (L.entry-start c e) ∙ live));
    timed = v.timed;
    enabled_entry = v.enabled_entry;
    enabled_timer = v.enabled_timer;
    alone = v.alone;
    idle = λ e. absurd (cc);
    distinct = v.distinct;
  }

-- the jobs that `Start` saves are as much enabled as those that it read
started_alike :
    (id : String) (next j : CronJob) (rest jobs : List CronJob)
    → next.id ≡ j.id
    → next.enabled ≡ j.enabled
    → is_enabled id rest ≡ is_enabled id jobs
    → is_enabled id (next ∷ rest) ≡ is_enabled id (j ∷ jobs)
unfolding is_enabled find_job
started_alike id next j rest jobs is alike e = ground (arith, eq_iff j.id id, eq_iff next.id id)

found_enabled :
    (j : CronJob) (jobs : List CronJob)
    → find_job j.id jobs ≡ some j
    → j.enabled ≡ true
    → is_enabled j.id jobs ≡ true
unfolding is_enabled
found_enabled j jobs found on = rw (found, is_enabled) on

module _ {L : CronLibrary} (calendar : Calendar) (times : ℕ → Times) where
  enabled-start_jobs :
      (id : String) (i : ℕ) (jobs : List CronJob) (s : Service L)
      → is_enabled id (start_jobs calendar times i jobs s).0 ≡ is_enabled id jobs
  unfolding start_jobs prepare_job
  enabled-start_jobs id i [] s = refl
  enabled-start_jobs id i (j ∷ jobs) s =
      started_alike id (prepare_job calendar j (times i).prepared) j _ jobs refl refl
        (enabled-start_jobs id (suc i) jobs _)

  job_ids-start_jobs :
      (i : ℕ) (jobs : List CronJob) (s : Service L)
      → job_ids (start_jobs calendar times i jobs s).0 ≡ job_ids jobs
  unfolding start_jobs prepare_job
  job_ids-start_jobs i [] s = refl
  job_ids-start_jobs i (j ∷ jobs) s = ap (λ ks. j.id ∷ ks) (job_ids-start_jobs (suc i) jobs _)

  disk-start_jobs :
      (i : ℕ) (jobs : List CronJob) (s : Service L)
      → (start_jobs calendar times i jobs s).1.disk ≡ s.disk
  unfolding start_jobs
  disk-start_jobs i [] s = refl
  disk-start_jobs i (j ∷ jobs) s =
      disk-start_jobs (suc i) jobs _
      ∙ disk-arm calendar (times i).armed (prepare_job calendar j (times i).prepared) s

  start_jobs-Sound :
      (i : ℕ) (jobs : List CronJob) (s : Service L)
      → All (λ j. find_job j.id s.disk ≡ some j) jobs
      → Sound s
      → Sound (start_jobs calendar times i jobs s).1
  unfolding start_jobs prepare_job
  start_jobs-Sound i [] s found v = v
  start_jobs-Sound i (j ∷ jobs) s found v =
      let next : CronJob = prepare_job calendar j (times i).prepared in
      let armed : Service L = arm calendar (times i).armed next s in
      start_jobs-Sound (suc i) jobs armed
        (subst (λ d. All (λ k. find_job k.id d ≡ some k) jobs)
          (sym (disk-arm calendar (times i).armed next s)) found.1)
        (arm-Sound calendar (times i).armed next s (found_enabled j s.disk found.0) v)

  start_saved-Sound :
      (b : Bool) (jobs : List CronJob) (s : Service L)
      → Sound (record s { disk = jobs })
      → Sound s
      → Sound (start_saved b (jobs, s)).0
  unfolding start_saved
  start_saved-Sound true jobs s w v = launch-Sound (record s { disk = jobs }) s.c refl w
  start_saved-Sound false jobs s w v = v

  start_fresh-Sound :
      (b : Bool) (s : Service L)
      → Sound s
      → Sound (start_saved b (start_jobs calendar times 0 s.disk s)).0
  start_fresh-Sound b s v =
      let armed : Service L = (start_jobs calendar times 0 s.disk s).1 in
      let jobs : List CronJob = (start_jobs calendar times 0 s.disk s).0 in
      let sound : Sound armed = start_jobs-Sound 0 s.disk s (All-find_job s.disk v.distinct) v in
      start_saved-Sound b jobs armed
        (disk-Sound armed jobs
          (λ id. inr (λ e.
            enabled-start_jobs id 0 s.disk s
            ∙ ap (is_enabled id) (sym (disk-start_jobs 0 s.disk s))
            ∙ e))
          (rw (job_ids-start_jobs 0 s.disk s) v.distinct) sound)
        sound

  start_ready-Sound :
      (io : Io) (s : Service L) (o : Option L.Scheduler)
      → s.c ≡ o
      → Sound s
      → Sound (start_ready calendar io times s o).0
  unfolding start_ready
  start_ready-Sound io s (some c) is v = v
  start_ready-Sound io s none is v = elim (Bool-cases io.load) [
    | inl reads ↦
        rw (reads, start_ready)
          (start_fresh-Sound io.save (record s { c = some L.new }) (fresh-Sound s is v))
    | inr fails ↦ rw (fails, start_ready) (fresh-Sound s is v)
  ]

  pub start-Sound : (io : Io) (s : Service L) → Sound s → Sound (start calendar io times s).0
  unfolding start
  start-Sound io s v = elim (Bool-cases io.lock) [
    | inl locks ↦ rw (locks, start) (start_ready-Sound io s s.c refl v)
    | inr fails ↦ rw (fails, start) v
  ]

find-stop_timer :
    (handle h : ℕ) (clock : Timers)
    → find h clock.pending ≡ none
    → find h (stop_timer handle clock).pending ≡ none
unfolding stop_timer
find-stop_timer handle h clock e = ground (arith, find-without handle h clock.pending)

find-stop_all :
    (h : ℕ) (timers : List (String × ℕ)) (clock : Timers)
    → find h clock.pending ≡ none
    → find h (stop_all timers clock).pending ≡ none
unfolding stop_all
find-stop_all h [] clock e = e
find-stop_all h ((id, handle) ∷ timers) clock e =
    find-stop_all h timers (stop_timer handle clock) (find-stop_timer handle h clock e)

-- a timer of the map is stopped
stopped :
    (h : ℕ) (id : String) (timers : List (String × ℕ)) (clock : Timers)
    → lookup id timers ≡ some h
    → find h (stop_all timers clock).pending ≡ none
unfolding stop_all lookup stop_timer
stopped h id [] clock e = absurd (cc)
stopped h id ((j, handle) ∷ timers) clock e = elim (Bool-cases (str_eq j id)) [
  | inl same ↦
      find-stop_all h timers (stop_timer handle clock)
        (ground (arith, find-without handle h clock.pending, ==_iff handle h))
  | inr differs ↦ stopped h id timers (stop_timer handle clock) (rw differs at e)
]

-- After `Stop` no timer is pending.
none_pending :
    (h : ℕ) (timers : List (String × ℕ)) (clock : Timers)
    → ((id : String) → find h clock.pending ≡ some id → lookup id timers ≡ some h)
    → find h (stop_all timers clock).pending ≡ none
none_pending h timers clock known = elim (Option-cases (find h clock.pending)) [
  | inl absent ↦ find-stop_all h timers clock absent
  | inr (id, pending) ↦ stopped h id timers clock (known id pending)
]

module _ {L : CronLibrary} where
  pub find-stop : (h : ℕ) (s : Service L) → Sound s → find h (stop s).clock.pending ≡ none
  unfolding stop
  find-stop h s v = none_pending h s.timers s.clock (v.timed h)

  pub stop-Sound : (s : Service L) → Sound s → Sound (stop s)
  unfolding stop registered lookup
  stop-Sound s v = record {
    owned = λ e id is. absurd (cc);
    timed = λ h id e. absurd (cc (find-stop h s v));
    enabled_entry = λ id e is. absurd (cc);
    enabled_timer = λ id e is. absurd (cc);
    alone = λ id e h is. absurd (cc);
    idle = λ e. (refl, refl);
    distinct = v.distinct;
  }
