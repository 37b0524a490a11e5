-- ===== src/Cron/Types.antt =====
-- The scheduled jobs of internal/cron/cron.go, and the library calls that they depend on.
use or3_intern.Base.{ℕ, Bool, Option, String}
use or3_intern.Base.Int.{ℤ}

-- `CronSchedule`; its kind is any text, of which `at`, `every` and `cron` are known.
pub record CronSchedule : Type 0 where
  pub kind : String
  pub at_ms : ℤ
  pub every_ms : ℤ
  pub expr : String
  pub tz : String

-- `CronAgentRunPayload`; `meta` stands for its JSON text.
pub record CronAgentRunPayload : Type 0 where
  pub runner_id : String
  pub task : String
  pub timeout_seconds : ℤ
  pub cwd : String
  pub model : String
  pub mode : String
  pub isolation : String
  pub max_turns : ℤ
  pub meta : String

-- `CronPayload`
pub record CronPayload : Type 0 where
  pub kind : String
  pub message : String
  pub deliver : Bool
  pub channel : String
  pub to : String
  pub session_key : String
  pub agent_run : Option CronAgentRunPayload

-- `CronJobState`
pub record CronJobState : Type 0 where
  pub next_run_at_ms : Option ℤ
  pub last_run_at_ms : Option ℤ
  pub last_status : String
  pub last_error : String
  pub last_enqueued_job_id : String
  pub last_enqueued_run_id : String

-- `CronJob`
pub record CronJob : Type 0 where
  pub id : String
  pub name : String
  pub enabled : Bool
  pub schedule : CronSchedule
  pub payload : CronPayload
  pub state : CronJobState
  pub created_at_ms : ℤ
  pub updated_at_ms : ℤ
  pub delete_after_run : Bool

-- `RunResult`
pub record RunResult : Type 0 where
  pub enqueued_job_id : String
  pub enqueued_run_id : String

-- Why an operation fails: the code's messages, by their cause.
pub data CronError : Type 0 where
  lock_failed load_failed save_failed : CronError
  too_many_jobs duplicate_id id_required not_found : CronError
  at_required every_too_short expr_required invalid_expr unknown_kind invalid_timezone : CronError
  agent_run_required runner_id_required task_required unsupported_payload : CronError

-- What the code asks of github.com/robfig/cron/v3's parser and of time.LoadLocation: whether an
-- expression parses, when it is next due (in milliseconds, `now` in nanoseconds, in the named zone
-- or in that of the clock), and whether a zone is known.
pub record Calendar : Type 0 where
  pub parses : String → Bool
  pub next : String → Option String → ℕ → ℤ
  pub known_zone : String → Bool
