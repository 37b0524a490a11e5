-- ===== src/Cron/Live.antt =====
-- `Start` of internal/cron/cron.go puts every job of the store that can run into the schedule.
use mathlib.Core.Path.{subst}
use mathlib.Core.Option.{some-injective}
use or3_intern.Base.{
  inl, inr, Bool-cases, ℕ, suc, ◌≡◌, refl, sym, true, false, String, str_eq, eq_iff, Option, none,
  some, List, [], ◌∷◌, All, Distinct, ◌≢◌, arith, if◌then◌else◌,
}
use or3_intern.Base.Int.{ℤ, pos, negsuc, ltb_ℤ, quotient, mul_int64}
use or3_intern.Base.Table.{find}
use or3_intern.Cron.Types.{CronSchedule, CronJob, Calendar}
use or3_intern.Cron.Schedule.{
  normalize_payload, validate_payload, validate_kind, validate_schedule, prepare_job,
}
use or3_intern.Cron.Clocks.{CronLibrary, Spec, every_spec, after_func}
use or3_intern.Cron.Service.{
  Service, Times, find_job, unarm, add_timer, register, add_entry, add_every, cron_spec,
  times_million, is_armable, arm_kind, arm_with, arm_from, arm,
}
use or3_intern.Cron.Runs.{start_jobs}
use or3_intern.Cron.Sound.{job_ids, registered}
use or3_intern.Cron.Machine.{Registration, entry, timer}
use or3_intern.Cron.Running.{HasScheduler, unarm-HasScheduler, arm-HasScheduler}
use or3_intern.Cron.Apart.{Apart, Has, arm-Apart, arm-Has}

-- what `AddFunc` is given for a schedule
abbrev pub spec_of : Calendar → CronSchedule → Spec
spec_of calendar schedule =
    if str_eq schedule.kind "every"
    then every_spec (mul_int64 (quotient schedule.every_ms 1000) 1000000000)
    else cron_spec calendar schedule

-- A job that can run: it is enabled and valid; if it is to run once, it is not due before the clock's
-- readings, and else the library accepts its schedule.
pub record IsRunnable (L : CronLibrary) (calendar : Calendar) (times : ℕ → Times) (job : CronJob)
    : Type 0 where
  pub on : job.enabled ≡ true
  pub schedule : validate_schedule calendar job.schedule ≡ none
  pub payload : validate_payload (normalize_payload job.payload) ≡ none
  pub later :
      str_eq job.schedule.kind "at" ≡ true
      → (i : ℕ) → ltb_ℤ (pos (times i).armed) (times_million job.schedule.at_ms) ≡ true
  pub accepted :
      str_eq job.schedule.kind "at" ≡ false
      → (c : L.Scheduler)
      → (e : ℕ) × (after : L.Scheduler) × (L.add_func c (spec_of calendar job.schedule) job.id
          ≡ some (e, after))

module _ {L : CronLibrary} where
  Has-add_timer : (id : String) (s : Service L) → (a : Registration) × Has a id (add_timer id s)
  unfolding add_timer after_func find
  Has-add_timer id s = (timer s.clock.next, (ground arith, omega arith))

  Has-add_entry :
      (spec : Spec) (id : String) (s : Service L) (c : L.Scheduler) (e : ℕ) (after : L.Scheduler)
      → L.add_func c spec id ≡ some (e, after)
      → (a : Registration) × Has a id (add_entry spec id s c)
  unfolding registered register add_entry
  Has-add_entry spec id s c e after added =
      (entry e, rw (add_entry, added) (ground (arith, L.entry-add_func c spec id e after e added)))

-- the kinds of a valid schedule, as the code's `switch` finds them
data Kind (schedule : CronSchedule) : Type 0 where
  at : str_eq schedule.kind "at" ≡ true → Kind schedule
  every :
      str_eq schedule.kind "at" ≡ false
      → str_eq schedule.kind "every" ≡ true
      → ltb_ℤ schedule.every_ms (pos 1000) ≡ false
      → Kind schedule
  cron :
      str_eq schedule.kind "at" ≡ false
      → str_eq schedule.kind "every" ≡ false
      → str_eq schedule.kind "cron" ≡ true
      → Kind schedule

Kind-cases :
    (calendar : Calendar) (schedule : CronSchedule)
    → validate_schedule calendar schedule ≡ none
    → Kind schedule
unfolding validate_schedule validate_kind
Kind-cases calendar schedule e = elim (Bool-cases (str_eq schedule.kind "at")) [
  | inl is_at ↦ at is_at
  | inr not_at ↦ elim (Bool-cases (str_eq schedule.kind "every")) [
    | inl is_every ↦ every not_at is_every (ground arith)
    | inr not_every ↦ cron not_at not_every (ground arith)
  ]
]

-- a second at least
seconds_positive : (ms : ℤ) → ltb_ℤ ms (pos 1000) ≡ false → ltb_ℤ (pos 0) (quotient ms 1000) ≡ true
unfolding quotient
seconds_positive (pos n) e = ground arith
seconds_positive (negsuc n) e = absurd (ground arith)

str_eq_ne : (a b : String) → a ≢ b → str_eq a b ≡ false
str_eq_ne a b differ = elim (Bool-cases (str_eq a b)) [
  | inl same ↦ absurd (differ ((eq_iff a b).0 same))
  | inr other ↦ other
]

module _ {L : CronLibrary} (calendar : Calendar) where
  arm_kind-Has :
      (now : ℕ) (job : CronJob) (s : Service L) (c : L.Scheduler)
      → Kind job.schedule
      → (str_eq job.schedule.kind "at" ≡ true
          → ltb_ℤ (pos now) (times_million job.schedule.at_ms) ≡ true)
      → (str_eq job.schedule.kind "at" ≡ false
          → (e : ℕ) × (after : L.Scheduler) × (L.add_func c (spec_of calendar job.schedule) job.id
              ≡ some (e, after)))
      → (a : Registration) × Has a job.id (arm_kind calendar now job s c)
  unfolding arm_kind add_every
  arm_kind-Has now job s c (at is) later accepted = rw (is, later is) (Has-add_timer job.id s)
  arm_kind-Has now job s c (every not_at is long) later accepted =
      let (e, after, added) = accepted not_at in
      rw (not_at, is, seconds_positive job.schedule.every_ms long)
        (Has-add_entry _ job.id s c e after (rw is at added))
  arm_kind-Has now job s c (cron not_at not_every is) later accepted =
      let (e, after, added) = accepted not_at in
      rw (not_at, not_every, is) (Has-add_entry _ job.id s c e after (rw not_every at added))

  armable_of_valid :
      (times : ℕ → Times) (now : ℕ) (job : CronJob)
      → IsRunnable L calendar times job
      → is_armable calendar (prepare_job calendar job now) ≡ true
  unfolding is_armable prepare_job
  armable_of_valid times now job v = rw (v.on, v.schedule, v.payload) refl

  arm_with-Has :
      (times : ℕ → Times) (i : ℕ) (job : CronJob) (s : Service L) (o : Option L.Scheduler)
      → HasScheduler s
      → s.c ≡ o
      → IsRunnable L calendar times job
      → (a : Registration) × Has a job.id
          (arm_with calendar (times i).armed (prepare_job calendar job (times i).prepared) s o)
  unfolding prepare_job arm_with
  arm_with-Has times i job s none (c, is) e v = absurd (cc)
  arm_with-Has times i job s (some c) h e v = rw (armable_of_valid times (times i).prepared job v) (
      arm_kind-Has (times i).armed (prepare_job calendar job (times i).prepared) s c
        (Kind-cases calendar job.schedule v.schedule) (λ at. v.later at i)
        (λ not_at. v.accepted not_at c))

  arm_from-Has :
      (times : ℕ → Times) (i : ℕ) (job : CronJob) (s : Service L) (o : Option L.Scheduler)
      → HasScheduler s
      → s.c ≡ o
      → IsRunnable L calendar times job
      → (a : Registration) × Has a job.id
          (arm_from calendar (times i).armed (prepare_job calendar job (times i).prepared) s o)
  unfolding prepare_job arm_from
  arm_from-Has times i job s none (c, is) e v = absurd (cc)
  arm_from-Has times i job s (some _) h e v =
      arm_with-Has times i job (unarm job.id s) (unarm job.id s).c (unarm-HasScheduler job.id s h)
        refl v

  -- `armJobLocked` puts a job that can run into the schedule.
  arm-Has_self :
      (times : ℕ → Times) (i : ℕ) (job : CronJob) (s : Service L)
      → HasScheduler s
      → IsRunnable L calendar times job
      → (a : Registration) × Has a job.id
          (arm calendar (times i).armed (prepare_job calendar job (times i).prepared) s)
  unfolding arm
  arm-Has_self times i job s h v = arm_from-Has times i job s s.c h refl v

  -- the jobs that follow in the loop of `Start` have other ids
  start_jobs-Has :
      (a : Registration) (id : String) (times : ℕ → Times) (i : ℕ) (jobs : List CronJob)
      (s : Service L)
      → All (λ k. id ≢ k) (job_ids jobs)
      → Apart s
      → Has a id s
      → Has a id (start_jobs calendar times i jobs s).1
  unfolding start_jobs prepare_job
  start_jobs-Has a id times i [] s differ v has = has
  start_jobs-Has a id times i (j ∷ jobs) s differ v has =
      let next : CronJob = prepare_job calendar j (times i).prepared in
      start_jobs-Has a id times (suc i) jobs (arm calendar (times i).armed next s) differ.1
        (arm-Apart calendar (times i).armed next s v)
        (arm-Has a id calendar (times i).armed next s (str_eq_ne j.id id (λ e. differ.0 (sym e))) v
          has)

  pub start_jobs-Live :
      (id : String) (job : CronJob) (times : ℕ → Times) (i : ℕ) (jobs : List CronJob)
      (s : Service L)
      → Distinct (job_ids jobs)
      → find_job id jobs ≡ some job
      → IsRunnable L calendar times job
      → HasScheduler s
      → Apart s
      → (a : Registration) × Has a id (start_jobs calendar times i jobs s).1
  unfolding start_jobs prepare_job find_job
  start_jobs-Live id job times i [] s d found runs h v = absurd (cc)
  start_jobs-Live id job times i (j ∷ jobs) s d found runs h v =
      let next : CronJob = prepare_job calendar j (times i).prepared in
      let armed : Service L = arm calendar (times i).armed next s in
      elim (Bool-cases (str_eq j.id id)) [
        | inl same ↦
            let is : j ≡ job = some-injective j job (rw same at found) in
            let named : j.id ≡ id = (eq_iff j.id id).0 same in
            let (a, has) =
              arm-Has_self times i j s h (subst (IsRunnable L calendar times) (sym is) runs) in
            (
              a,
              start_jobs-Has a id times (suc i) jobs armed
                  (subst (λ k. All (λ x. k ≢ x) (job_ids jobs)) named d.0)
                  (arm-Apart calendar (times i).armed next s v)
                  (subst (λ k. Has a k armed) named has),
            )
        | inr differs ↦
            start_jobs-Live id job times (suc i) jobs armed d.1 (rw differs at found) runs
              (arm-HasScheduler calendar (times i).armed next s h)
              (arm-Apart calendar (times i).armed next s v)
      ]
