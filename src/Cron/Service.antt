-- ===== src/Cron/Service.antt =====
-- internal/cron/cron.go: the service. Each definition is what the code does under the lock `mu`. What a
-- store file gives back is what was last saved; whether its lock, its reading and its writing succeed is
-- an argument of each operation.
use or3_intern.Base.{
  ℕ, ◌*◌, ◌+◌, String, str_eq, Bool, true, false, ◌&&◌, Option, none, some, List, [], ◌∷◌,
  if◌then◌else◌,
}
use or3_intern.Base.Int.{ℤ, pos, negsuc, ltb_ℤ, quotient, mul_int64}
use or3_intern.Base.Assoc.{lookup, insert, delete}
use or3_intern.Cron.Types.{CronSchedule, CronJob, CronError, Calendar}
use or3_intern.Cron.Schedule.{validate_payload, validate_schedule, zone_of}
use or3_intern.Cron.Clocks.{
  Spec, every_spec, expr_spec, CronLibrary, Timers, after_func, stop_timer,
}

-- `Service`, with the timers that the runtime holds for it, and the jobs in the store file
pub record Service (L : CronLibrary) : Type 0 where
  pub c : Option L.Scheduler
  pub entries : List (String × ℕ)
  pub timers : List (String × ℕ)
  pub clock : Timers
  pub disk : List CronJob

-- whether `lockCronStore`, `load` and `save` succeed
pub record Io : Type 0 where
  pub lock : Bool
  pub load : Bool
  pub save : Bool

-- The readings of the clock within an operation, in nanoseconds: for the time stamp (in milliseconds),
-- in `prepareJobLocked` and in `armJobLocked`.
pub record Times : Type 0 where
  pub stamp : ℕ
  pub prepared : ℕ
  pub armed : ℕ

-- the job that an operation returns, where it is not the zero `CronJob`, and the error
abbrev pub Outcome : Type 0
Outcome = Option CronJob × Option CronError

abbrev pub failure : CronError → Outcome
failure e = (none, some e)

abbrev pub max_jobs : ℕ
max_jobs = 10000

-- the first job with an id
unfoldable pub find_job : String → List CronJob → Option CronJob
find_job id [] = none
find_job id (j ∷ jobs) = if str_eq j.id id then some j else find_job id jobs

-- st.Jobs[i] = job, at the first job with an id
unfoldable pub replace_job : String → CronJob → List CronJob → List CronJob
replace_job id job [] = []
replace_job id job (j ∷ jobs) = if str_eq j.id id then job ∷ jobs else j ∷ replace_job id job jobs

-- the jobs with other ids
unfoldable pub remove_job : String → List CronJob → List CronJob
remove_job id [] = []
remove_job id (j ∷ jobs) =
    let rest = remove_job id jobs in if str_eq j.id id then rest else j ∷ rest

abbrev pub no_error : Option CronError → Bool
no_error none = true
no_error (some _) = false

-- the nanoseconds of a number of milliseconds, as `time.UnixMilli` has them
abbrev pub times_million : ℤ → ℤ
times_million (pos n) = pos (n * 1000000)
times_million (negsuc n) = negsuc (n * 1000000 + 999999)

-- enabled, and of a schedule and a payload that are valid
unfoldable pub is_armable : Calendar → CronJob → Bool
is_armable calendar job =
    job.enabled
    && no_error (validate_schedule calendar job.schedule)
    && no_error (validate_payload job.payload)

-- the expression of a schedule, in its zone
abbrev pub cron_spec : Calendar → CronSchedule → Spec
cron_spec calendar schedule = expr_spec (zone_of calendar schedule) schedule.expr

module _ {L : CronLibrary} where
  unfoldable pub unarm_entry : String → Option L.Scheduler → Option ℕ → Service L → Service L
  unarm_entry id (some c) (some e) s = record s {
    c = some (L.remove c e);
    entries = delete id s.entries;
  }
  unarm_entry id _ _ s = s

  unfoldable pub unarm_timer : String → Option ℕ → Service L → Service L
  unarm_timer id (some h) s = record s { clock = stop_timer h s.clock; timers = delete id s.timers }
  unarm_timer id none s = s

  -- `unarmJobLocked`
  unfoldable pub unarm : String → Service L → Service L
  unfolding unarm_entry unarm_timer
  unarm id s =
      let first = unarm_entry id s.c (lookup id s.entries) s in
      unarm_timer id (lookup id first.timers) first

  -- s.timers[id] = s.afterFunc(…)
  unfoldable pub add_timer : String → Service L → Service L
  add_timer id s =
      let (handle, clock) = after_func id s.clock in
      record s { clock = clock; timers = insert id handle s.timers }

  unfoldable pub register : String → Service L → Option (ℕ × L.Scheduler) → Service L
  register id s none = s
  register id s (some (e, c)) = record s { c = some c; entries = insert id e s.entries }

  -- s.c.AddFunc(…), and its entry in the map
  unfoldable pub add_entry : Spec → String → Service L → L.Scheduler → Service L
  unfolding register
  add_entry spec id s c = register id s (L.add_func c spec id)

  -- a negative or zero number of seconds is logged and left
  unfoldable pub add_every : ℤ → String → Service L → L.Scheduler → Service L
  unfolding add_entry
  add_every sec id s c =
      if ltb_ℤ (pos 0) sec then add_entry (every_spec (mul_int64 sec 1000000000)) id s c else s

  -- the `switch` of `armJobLocked`
  unfoldable pub arm_kind : Calendar → ℕ → CronJob → Service L → L.Scheduler → Service L
  unfolding add_timer add_every add_entry
  arm_kind calendar now job s c =
      if str_eq job.schedule.kind "at"
      then if ltb_ℤ (pos now) (times_million job.schedule.at_ms) then add_timer job.id s else s
      else if str_eq job.schedule.kind "every"
      then add_every (quotient job.schedule.every_ms 1000) job.id s c
      else if str_eq job.schedule.kind "cron"
      then add_entry (cron_spec calendar job.schedule) job.id s c
      else s

  -- the scheduler is running
  unfoldable pub arm_with : Calendar → ℕ → CronJob → Service L → Option L.Scheduler → Service L
  unfolding arm_kind
  arm_with calendar now job s none = s
  arm_with calendar now job s (some c) =
      if is_armable calendar job then arm_kind calendar now job s c else s

  unfoldable pub arm_from : Calendar → ℕ → CronJob → Service L → Option L.Scheduler → Service L
  unfolding arm_with
  arm_from calendar now job s none = s
  arm_from calendar now job s (some _) =
      let cleared = unarm job.id s in arm_with calendar now job cleared cleared.c

  -- `armJobLocked`
  unfoldable pub arm : Calendar → ℕ → CronJob → Service L → Service L
  unfolding arm_from
  arm calendar now job s = arm_from calendar now job s s.c
