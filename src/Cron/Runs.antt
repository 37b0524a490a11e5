-- ===== src/Cron/Runs.antt =====
-- internal/cron/cron.go: `runJobByID`, in two parts, each whole under the lock, with the runner's call
-- between them; `Start`, `Stop`, `Status` and `List`.
use or3_intern.Base.{
  ℕ, suc, String, Bool, true, false, ◌&&◌, ◌||◌, Option, none, some, List, [], ◌∷◌, length, ◌⊎◌,
  inl, inr, if◌then◌else◌,
}
use or3_intern.Base.Int.{ℤ, pos, ltb_ℤ, eq_ℤ}
use or3_intern.Cron.Types.{
  CronJob, RunResult, CronError, lock_failed, load_failed, save_failed, not_found, Calendar,
}
use or3_intern.Cron.Schedule.{prepare_job}
use or3_intern.Cron.Clocks.{CronLibrary, Timers, stop_timer}
use or3_intern.Cron.Edits.{ready, millis}
use or3_intern.Cron.Service.{Service, Io, Times, find_job, replace_job, remove_job, unarm, arm}

-- Up to the runner's call: an error, or the job and whether the runner is called with it.
choose_job : Bool → Option CronJob → CronError ⊎ (CronJob × Bool)
choose_job force none = inl not_found
choose_job force (some job) = inr (job, force || job.enabled)

unfoldable pub run_begin :
    {L : CronLibrary} → Io → String → Bool → Service L → CronError ⊎ (CronJob × Bool)
unfolding choose_job
run_begin io id force s = elim (ready io) [
  | some e ↦ inl e
  | none ↦ choose_job force (find_job id s.disk)
]

-- what the runner returns: its result, and its error's text
pub record Ran : Type 0 where
  pub result : RunResult
  pub error : Option String

abbrev pub status_of : Option String → String
status_of none = "ok"
status_of (some _) = "error"

abbrev pub text_of : Option String → String
text_of none = ""
text_of (some message) = message

abbrev pub succeeded : Option String → Bool
succeeded none = true
succeeded (some _) = false

-- the job with the outcome of its run
unfoldable pub finished_job : Times → Ran → CronJob → CronJob
finished_job times ran job = record job {
  state = record job.state {
    last_run_at_ms = some (millis times.stamp);
    last_status = status_of ran.error;
    last_error = text_of ran.error;
    last_enqueued_job_id = ran.result.enqueued_job_id;
    last_enqueued_run_id = ran.result.enqueued_run_id;
  };
}

-- timer.Stop() for every timer of the map
unfoldable pub stop_all : List (String × ℕ) → Timers → Timers
stop_all [] clock = clock
stop_all ((id, handle) ∷ timers) clock = stop_all timers (stop_timer handle clock)

module _ {L : CronLibrary} where
  -- the timer that fires, and the job that it runs
  unfoldable pub fire : ℕ → Service L → Service L
  fire handle s = record s { clock = stop_timer handle s.clock }

  unfoldable pub save_jobs : Bool → List CronJob → Service L → Service L × Option CronError
  save_jobs true jobs s = (record s { disk = jobs }, none)
  save_jobs false jobs s = (s, some save_failed)

  unfoldable pub finish_found :
      Calendar
      → Io
      → Times
      → String
      → Ran
      → Service L
      → Option CronJob
      → Service L × Option CronError
  unfolding save_jobs finished_job
  finish_found calendar io times id ran s none = (s, none)
  finish_found calendar io times id ran s (some latest) =
      if latest.delete_after_run && succeeded ran.error
      then save_jobs io.save (remove_job id s.disk) (unarm id s)
      else save_jobs io.save
          (replace_job id (prepare_job calendar (finished_job times ran latest) times.prepared)
            s.disk)
          s

  -- From the runner's return. The error is that of the lock or the store; the runner's is joined to it.
  unfoldable pub run_finish :
      Calendar → Io → Times → String → Ran → Service L → Service L × Option CronError
  unfolding finish_found
  run_finish calendar io times id ran s = elim (ready io) [
    | some e ↦ (s, some e)
    | none ↦ finish_found calendar io times id ran s (find_job id s.disk)
  ]

  -- the loop of `Start`, with the readings of the clock at each job
  unfoldable pub start_jobs :
      Calendar → (ℕ → Times) → ℕ → List CronJob → Service L → List CronJob × Service L
  start_jobs calendar times i [] s = ([], s)
  start_jobs calendar times i (job ∷ jobs) s =
      let next = prepare_job calendar job (times i).prepared in
      let (rest, after) =
        start_jobs calendar times (suc i) jobs (arm calendar (times i).armed next s) in
      (next ∷ rest, after)

  -- s.c.Start()
  unfoldable pub launch : Service L → Option L.Scheduler → Service L
  launch s none = s
  launch s (some c) = record s { c = some (L.start c) }

  unfoldable pub start_saved : Bool → List CronJob × Service L → Service L × Option CronError
  unfolding launch
  start_saved true (jobs, s) = (launch (record s { disk = jobs }) s.c, none)
  start_saved false (jobs, s) = (s, some save_failed)

  unfoldable pub start_ready :
      Calendar → Io → (ℕ → Times) → Service L → Option L.Scheduler → Service L × Option CronError
  unfolding start_jobs start_saved
  start_ready calendar io times s (some _) = (s, none)
  start_ready calendar io times s none =
      let fresh = record s { c = some L.new } in
      if io.load
      then start_saved io.save (start_jobs calendar times 0 s.disk fresh)
      else (fresh, some load_failed)

  -- `Start`
  unfoldable pub start : Calendar → Io → (ℕ → Times) → Service L → Service L × Option CronError
  unfolding start_ready
  start calendar io times s =
      if io.lock then start_ready calendar io times s s.c else (s, some lock_failed)

  -- `Stop`, with its second half, after the lock is released, at once
  unfoldable pub stop : Service L → Service L
  unfolding stop_all
  stop s = record s { c = none; entries = []; timers = []; clock = stop_all s.timers s.clock }

abbrev pub sooner : ℤ → Option ℤ → ℤ
sooner next none = next
sooner next (some due) = if eq_ℤ next (pos 0) || ltb_ℤ due next then due else next

-- the loop of `Status`: 0 stands for no time
unfoldable pub earliest : ℤ → List CronJob → ℤ
earliest next [] = next
earliest next (job ∷ jobs) = earliest (sooner next job.state.next_run_at_ms) jobs

-- `Status`: the number of jobs and the next time of waking, where the store can be read
unfoldable pub status : {L : CronLibrary} → Io → Service L → CronError ⊎ (ℕ × Option ℤ)
unfolding earliest
status io s = elim (ready io) [
  | some e ↦ inl e
  | none ↦
      let next = earliest (pos 0) s.disk in
      inr (length s.disk, (if eq_ℤ next (pos 0) then none else some next))
]

-- `List`
unfoldable pub list : {L : CronLibrary} → Io → Service L → CronError ⊎ List CronJob
list io s = elim (ready io) [ some e ↦ inl e | none ↦ inr s.disk ]
