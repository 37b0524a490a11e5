-- ===== src/Examples/Cron.antt =====
-- The cron service at concrete inputs.
use or3_intern.Base.{
  ℕ, suc, ◌+◌, ◌*◌, ◌/◌, ◌^◌, ◌==◌, ==_iff, ◌≡◌, ◌≤◌, ◌<◌, ◌⊎◌, refl, Bool, true, false, String,
  Option, none, some, List, [], ◌∷◌, Distinct, arith, if◌then◌else◌,
}
use or3_intern.Base.Int.{pos, quotient, negsuc, ltb_ℤ}
use or3_intern.Base.Table.{find}
use or3_intern.Base.Assoc.{lookup}
use or3_intern.Base.Text.{trim_space}
use or3_intern.Cron.Types.{CronJob, load_failed, Calendar}
use or3_intern.Cron.Schedule.{
  next_every, prepare_job, validate_schedule, validate_kind, validate_payload, normalize_payload,
}
use or3_intern.Cron.Clocks.{CronLibrary, Spec, without, find-without}
use or3_intern.Cron.Service.{
  Service, Io, Times, find_job, arm, unarm, is_armable, add_entry, register,
}
use or3_intern.Cron.Operations.{remove, remove_found}
use or3_intern.Cron.Runs.{run_finish, start, start_ready, start_saved, start_jobs, launch}
use or3_intern.Cron.Sound.{registered, job_ids}
use or3_intern.Cron.Machine.{created, Reach, new, started, Registration, entry, IsLive, Reach-live}
use or3_intern.Cron.Outcomes.{Gone, remove-Gone, Leaves, run_finish-Leaves}
use or3_intern.Cron.Live.{IsRunnable}
use or3_intern.Cron.Liveness.{IsRunning, start-Live, start-failed}
use or3_intern.Cron.Sqlite.{JobJson, Row, load_sqlite, save_sqlite}
use or3_intern.Cron.Saved.{IsTable}
use or3_intern.Cron.Stored.{load_sqlite-save_sqlite}
use or3_intern.Cron.NextRun.{next_every-bounds}

record Cron : Type 0 where
  entries : List (ℕ × String)
  running : Bool

-- above every number of an entry
above : List (ℕ × String) → ℕ
above [] = 1
above ((e, id) ∷ rest) = suc e + above rest

find_nil : (e : ℕ) → find {V = String} e [] ≡ none
unfolding find
find_nil e = refl

above_fresh : (rest : List (ℕ × String)) (h : ℕ) → above rest ≤ h → find h rest ≡ none
unfolding above find
above_fresh [] h le = refl
above_fresh ((e, id) ∷ rest) h le = ground (arith, ==_iff e h, above_fresh rest h)

abbrev add_func : Cron → Spec → String → Option (ℕ × Cron)
add_func c spec id =
    some (above c.entries, record c { entries = (above c.entries, id) ∷ c.entries })

entry-add_func :
    (c : Cron) (spec : Spec) (id : String) (e : ℕ) (after : Cron) (x : ℕ)
    → add_func c spec id ≡ some (e, after)
    → find x after.entries ≡ (if e == x then some id else find x c.entries)
unfolding find
entry-add_func c spec id e after x h = ground arith

entry_fresh :
    (c : Cron) (spec : Spec) (id : String) (e : ℕ) (after : Cron)
    → add_func c spec id ≡ some (e, after)
    → find e c.entries ≡ none
entry_fresh c spec id e after h = ground (arith, above_fresh c.entries e)

-- a library that takes every schedule
abbrev library : CronLibrary
library = record {
  Scheduler = Cron;
  new = record { entries = []; running = false };
  start = λ c. record c { running = true };
  add_func = add_func;
  remove = λ c e. record c { entries = without e c.entries };
  entry = λ c e. find e c.entries;
  running = λ c. c.running;
  entry-new = λ e. find_nil e;
  entry-start = λ c e. refl;
  running-new = refl;
  entry-remove = λ c e x. find-without e x c.entries;
  entry-add_func = entry-add_func;
  entry_fresh = entry_fresh;
  running-start = λ c. refl;
}

abbrev calendar : Calendar
calendar = record {
  parses = λ expr. true;
  next = λ expr zone now. pos (now / 1000000 + 60000);
  known_zone = λ zone. true;
}

-- a job that runs every five seconds
abbrev job : CronJob
job = record {
  id = "a";
  name = "tidy";
  enabled = true;
  schedule = record { kind = "every"; at_ms = pos 0; every_ms = pos 5000; expr = ""; tz = "" };
  payload = record {
    kind = "runner_run";
    message = "";
    deliver = false;
    channel = "";
    to = "";
    session_key = "";
    agent_run = some (record {
      runner_id = "codex";
      task = "tidy up";
      timeout_seconds = pos 0;
      cwd = "";
      model = "";
      mode = "review";
      isolation = "host_readonly";
      max_turns = pos 0;
      meta = "";
    });
  };
  state = record {
    next_run_at_ms = none;
    last_run_at_ms = none;
    last_status = "";
    last_error = "";
    last_enqueued_job_id = "";
    last_enqueued_run_id = "";
  };
  created_at_ms = pos 0;
  updated_at_ms = pos 0;
  delete_after_run = false;
}

abbrev fine : Io
fine = record { lock = true; load = true; save = true }

abbrev unreadable : Io
unreadable = record { lock = true; load = false; save = true }

abbrev moment : Times
moment = record { stamp = 7000000000; prepared = 7000000000; armed = 7000000000 }

abbrev stopped_service : Service library
stopped_service = record {
  c = none;
  entries = [];
  timers = [];
  clock = record { next = 0; pending = [] };
  disk = job ∷ [];
}

reached : Reach calendar stopped_service
unfolding created
reached = new 0 (job ∷ []) (tt, tt)

runnable : IsRunnable library calendar (λ i. moment) job
unfolding validate_schedule validate_kind validate_payload normalize_payload trim_space
runnable = record {
  on = refl;
  schedule = refl;
  payload = refl;
  later = λ at i. absurd (cc at);
  accepted = λ not_at c.
      (above c.entries, record c { entries = (above c.entries, "a") ∷ c.entries }, refl);
}

start_ok : (start calendar fine (λ i. moment) stopped_service).1 ≡ none
unfolding start start_ready start_saved
start_ok = refl

start-Live_example :
    ((a : Registration) × IsLive a "a" (start calendar fine (λ i. moment) stopped_service).0)
    × IsRunning (start calendar fine (λ i. moment) stopped_service).0
unfolding find_job
start-Live_example =
    start-Live calendar (λ i. moment) fine "a" job reached refl start_ok refl runnable

-- the service after its start
abbrev started_service : Service library
started_service = (start calendar fine (λ i. moment) stopped_service).0

live : IsLive (entry 1) "a" started_service
unfolding start start_ready start_saved start_jobs launch registered find add_entry register arm
    unarm lookup is_armable prepare_job validate_schedule trim_space validate_payload quotient above
live = refl

Reach-live_example :
    (entry 1 ≡ entry 1)
    × ((j : CronJob) × (find_job "a" started_service.disk ≡ some j) × (j.enabled ≡ true))
Reach-live_example =
    Reach-live calendar "a" (entry 1) (entry 1) (started reached fine (λ i. moment)) live live

remove_ok : (remove fine "a" started_service).1 ≡ (true, none)
unfolding remove remove_found start start_ready start_saved start_jobs launch find_job arm unarm
    lookup is_armable prepare_job validate_schedule trim_space validate_payload quotient above
remove_ok = refl

remove-Gone_example : Gone "a" started_service.disk (remove fine "a" started_service).0
remove-Gone_example = remove-Gone calendar fine "a" (started reached fine (λ i. moment)) remove_ok

run_finish-Leaves_example :
    Leaves "a"
      (record { result = record { enqueued_job_id = "j"; enqueued_run_id = "r" }; error = none })
      stopped_service.disk
      (run_finish calendar fine moment "a"
        (record { result = record { enqueued_job_id = "j"; enqueued_run_id = "r" }; error = none })
        stopped_service).0
run_finish-Leaves_example =
    run_finish-Leaves calendar fine moment "a"
      (record { result = record { enqueued_job_id = "j"; enqueued_run_id = "r" }; error = none })
      stopped_service

start-failed_example :
    ((start calendar unreadable (λ i. moment) stopped_service).1 ≡ some load_failed)
    × ((c : library.Scheduler) × ((start calendar unreadable (λ i. moment) stopped_service).0.c
          ≡ some c)
        × (library.running c ≡ false))
    × ((a : Registration) (id : String)
        → IsLive a id (start calendar unreadable (λ i. moment) stopped_service).0
        → ⊥)
    × (start calendar fine (λ i. moment) (start calendar unreadable (λ i. moment) stopped_service).0
        ≡ ((start calendar unreadable (λ i. moment) stopped_service).0, none))
start-failed_example =
    start-failed calendar (λ i. moment) unreadable fine (λ i. moment) reached refl refl refl refl

-- the text of one job
abbrev texts : JobJson
texts = record { marshal = λ j. some j.name; unmarshal = λ text. some job }

load_sqlite-save_sqlite_example :
    (after : List Row) × (loaded : List CronJob) × (save_sqlite texts (job ∷ []) [] ≡ some after)
    × (load_sqlite texts (λ a b. false) after ≡ some loaded)
    × ((j : String) → find_job j loaded ≡ find_job j (job ∷ []))
    × Distinct (job_ids loaded)
    × IsTable texts after
load_sqlite-save_sqlite_example =
    load_sqlite-save_sqlite texts (λ a b. false) (job ∷ []) [] tt (tt, tt)
      ((job.name, refl, refl), tt)

next_every-bounds_example :
    ((5000 * 1000000 < 2 ^ 63)
      × (next_every (pos 5000) 7000000000 ≡ pos (7000000000 / 1000000 + 5000)))
    ⊎ ((2 ^ 63 ≤ 5000 * 1000000)
        × (ltb_ℤ (next_every (pos 5000) 7000000000) (pos (7000000000 / 1000000)) ≡ true))
next_every-bounds_example = next_every-bounds 5000 7000000000 (omega arith)

-- an interval of more than 292 years: its next run lies in the past
wrapped : next_every (pos 9223372036855) 7000000000 ≡ negsuc 9223372029854
unfolding next_every
wrapped = refl
