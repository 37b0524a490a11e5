-- ===== src/Cron/Edits.antt =====
-- internal/cron/cron.go: what `Add`, `Update` and `SetEnabled` refuse, and the jobs that they save.
use or3_intern.Base.{
  ℕ, ◌/◌, String, str_eq, Bool, true, false, Option, none, some, List, length, leb, if◌then◌else◌,
}
use or3_intern.Base.Int.{ℤ, pos}
use or3_intern.Cron.Types.{
  CronJob, CronError, lock_failed, load_failed, too_many_jobs, duplicate_id, id_required, Calendar,
}
use or3_intern.Cron.Schedule.{normalize_payload, validate_payload, validate_schedule, prepare_job}
use or3_intern.Cron.Service.{Io, Times, Outcome, max_jobs, find_job}

abbrev pub millis : ℕ → ℤ
millis now = pos (now / 1000000)

-- the lock and the store file, before an operation looks at the jobs
abbrev pub ready : Io → Option CronError
ready io = if io.lock then if io.load then none else some load_failed else some lock_failed

-- the first of two failures
abbrev pub or_else : Option CronError → Option CronError → Option CronError
or_else (some e) later = some e
or_else none later = later

-- the stamps and the names that `Add` gives
unfoldable pub new_job : String → Times → CronJob → CronJob
new_job random times job =
    let id = if str_eq job.id "" then random else job.id in
    record job {
      id = id;
      name = if str_eq job.name "" then id else job.name;
      payload = normalize_payload job.payload;
      created_at_ms = pos times.stamp;
      updated_at_ms = pos times.stamp;
    }

-- what `SetEnabled` refuses before it looks for the job
unfoldable pub toggle_refusal : Io → String → Option CronError
toggle_refusal io id =
    if io.lock
    then if str_eq id "" then some id_required else if io.load then none else some load_failed
    else some lock_failed

module _ (calendar : Calendar) where
  -- what `Add` refuses, in its order
  unfoldable pub add_refusal : Io → CronJob → CronJob → List CronJob → Option CronError
  add_refusal io job named jobs = or_else (ready io) (
      or_else (if leb max_jobs (length jobs) then some too_many_jobs else none) (
        or_else (validate_schedule calendar job.schedule) (
          or_else (validate_payload (normalize_payload job.payload))
            (elim (find_job named.id jobs) [ none ↦ none | some _ ↦ some duplicate_id ]))))

  -- the job that `Update` saves in the place of `current`
  unfoldable pub updated_job : Times → String → CronJob → CronJob → CronJob
  updated_job times id job current =
      prepare_job calendar
        (record job {
          id = id;
          name = if str_eq job.name "" then id else job.name;
          payload = normalize_payload job.payload;
          created_at_ms = current.created_at_ms;
          updated_at_ms = pos times.stamp;
        })
        times.prepared

  -- what `Update` refuses before it looks for the job
  unfoldable pub update_refusal : Io → String → CronJob → Option CronError
  update_refusal io id job =
      if io.lock
      then if str_eq id ""
        then some id_required
        else or_else (validate_schedule calendar job.schedule) (
            or_else (validate_payload (normalize_payload job.payload))
              (if io.load then none else some load_failed))
      else some lock_failed

  -- the stored job as `SetEnabled` saves it; its payload is normalized at the latest on preparing
  unfoldable pub toggled_job : Times → Bool → CronJob → CronJob
  toggled_job times enabled current =
      prepare_job calendar
        (record current {
          enabled = enabled;
          payload = if enabled then normalize_payload current.payload else current.payload;
          updated_at_ms = pos times.stamp;
        })
        times.prepared

  -- A job that is to be enabled has a schedule and a payload that are valid. A refusal comes with the
  -- job that the code returns beside it.
  unfoldable pub enable_refusal : Bool → CronJob → Option Outcome
  enable_refusal false current = none
  enable_refusal true current = elim (validate_schedule calendar current.schedule) [
    | some e ↦ some (some current, some e)
    | none ↦
        let payload = normalize_payload current.payload in
        elim (validate_payload payload) [
          | some e ↦ some (some (record current { payload = payload }), some e)
          | none ↦ none
        ]
  ]
