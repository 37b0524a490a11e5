-- ===== src/Cron/Schedule.antt =====
-- internal/cron/cron.go: the defaults and checks of payloads and schedules, and the next due time.
-- The clock is in nanoseconds since 1970.
use or3_intern.Base.{
  ℕ, ◌/◌, String, str_eq, Bool, not, ◌&&◌, ◌||◌, Option, none, some, if◌then◌else◌,
}
use or3_intern.Base.Int.{ℤ, pos, ltb_ℤ, ◌+ℤ◌, mul_int64, floor_div}
use or3_intern.Base.Text.{trim_space, is_blank}
use or3_intern.Cron.Types.{
  CronSchedule, CronAgentRunPayload, CronPayload, CronJob, CronError, at_required, every_too_short,
  expr_required, invalid_expr, unknown_kind, invalid_timezone, agent_run_required,
  runner_id_required, task_required, unsupported_payload, Calendar,
}

abbrev pub runner_run : String
runner_run = "runner_run"

abbrev pub default_mode : String
default_mode = "review"

abbrev pub default_isolation : String
default_isolation = "host_readonly"

abbrev pub or_default : String → String → String
or_default s d = if str_eq s "" then d else s

-- the trimmed run, with the defaults of a runner run
unfoldable pub normalize_run : Bool → CronAgentRunPayload → CronAgentRunPayload
normalize_run is_runner_run run =
    let mode = trim_space run.mode in
    let isolation = trim_space run.isolation in
    record run {
      runner_id = trim_space run.runner_id;
      task = trim_space run.task;
      cwd = trim_space run.cwd;
      model = trim_space run.model;
      mode = if is_runner_run then or_default mode default_mode else mode;
      isolation = if is_runner_run then or_default isolation default_isolation else isolation;
    }

unfoldable pub normalize_agent_run : Bool → Option CronAgentRunPayload → Option CronAgentRunPayload
normalize_agent_run is_runner_run none = none
normalize_agent_run is_runner_run (some run) = some (normalize_run is_runner_run run)

-- `NormalizePayload`
unfoldable pub normalize_payload : CronPayload → CronPayload
unfolding normalize_agent_run normalize_run
normalize_payload payload =
    let kind = or_default (trim_space payload.kind) runner_run in
    record payload {
      kind = kind;
      session_key = trim_space payload.session_key;
      channel = trim_space payload.channel;
      to = trim_space payload.to;
      agent_run = normalize_agent_run (str_eq kind runner_run) payload.agent_run;
    }

validate_run : Option CronAgentRunPayload → Option CronError
validate_run none = some agent_run_required
validate_run (some run) =
    if is_blank run.runner_id
    then some runner_id_required
    else if is_blank run.task
    then some task_required
    else none

-- `ValidatePayload`: `none` where the payload can be dispatched
unfoldable pub validate_payload : CronPayload → Option CronError
unfolding normalize_payload validate_run
validate_payload payload =
    let normal = normalize_payload payload in
    if str_eq normal.kind runner_run
    then validate_run normal.agent_run
    else some unsupported_payload

-- the interval of a schedule, a minute where none is given
abbrev pub interval_ms : CronSchedule → ℤ
interval_ms schedule = if ltb_ℤ (pos 0) schedule.every_ms then schedule.every_ms else pos 60000

-- `now.Add(…).UnixMilli()`: the time is exact, but the duration is an `int64` of nanoseconds
unfoldable pub next_every : ℤ → ℕ → ℤ
unfolding ◌+ℤ◌ mul_int64 floor_div
next_every every now = floor_div (pos now +ℤ mul_int64 every 1000000) 1000000

abbrev positive : ℤ → Option ℤ
positive due = if ltb_ℤ (pos 0) due then some due else none

module _ (calendar : Calendar) where
  open calendar use {parses, next, known_zone}

  -- the part of `ValidateSchedule` that depends on the kind
  unfoldable pub validate_kind : CronSchedule → Option CronError
  validate_kind schedule =
      if str_eq schedule.kind "at"
      then if ltb_ℤ (pos 0) schedule.at_ms then none else some at_required
      else if str_eq schedule.kind "every"
      then if ltb_ℤ schedule.every_ms (pos 1000) then some every_too_short else none
      else if str_eq schedule.kind "cron"
      then if is_blank schedule.expr
        then some expr_required
        else if parses schedule.expr
        then none
        else some invalid_expr
      else some unknown_kind

  -- `ValidateSchedule`
  unfoldable pub validate_schedule : CronSchedule → Option CronError
  unfolding validate_kind
  validate_schedule schedule = elim (validate_kind schedule) [
    | some failure ↦ some failure
    | none ↦
        if is_blank schedule.tz || known_zone (trim_space schedule.tz)
        then none
        else some invalid_timezone
  ]

  -- the zone of a schedule, where it names a known one
  unfoldable pub zone_of : CronSchedule → Option String
  zone_of schedule =
      if not (is_blank schedule.tz) && known_zone (trim_space schedule.tz)
      then some (trim_space schedule.tz)
      else none

  -- `nextRunMS`
  unfoldable pub next_run_ms : CronSchedule → ℕ → Option ℤ
  unfolding zone_of next_every
  next_run_ms schedule now =
      if str_eq schedule.kind "at"
      then if ltb_ℤ (pos (now / 1000000)) schedule.at_ms then some schedule.at_ms else none
      else if str_eq schedule.kind "every"
      then some (next_every (interval_ms schedule) now)
      else if str_eq schedule.kind "cron"
      then if parses schedule.expr
        then positive (next schedule.expr (zone_of schedule) now)
        else none
      else none

  -- `prepareJobLocked`
  unfoldable pub prepare_job : CronJob → ℕ → CronJob
  unfolding normalize_payload next_run_ms
  prepare_job job now = record job {
    payload = normalize_payload job.payload;
    state = record job.state {
      next_run_at_ms = if job.enabled then next_run_ms job.schedule now else none;
    };
  }
