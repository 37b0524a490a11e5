-- ===== src/Cron/Running.antt =====
-- Taking jobs out of the schedule and putting them in leaves a scheduler where there is one
-- (internal/cron/cron.go).
use or3_intern.Base.{ℕ, ◌≡◌, refl, String, Option, none, some}
use or3_intern.Base.Assoc.{lookup}
use or3_intern.Cron.Types.{CronJob, Calendar}
use or3_intern.Cron.Clocks.{CronLibrary}
use or3_intern.Cron.Service.{Service, unarm, unarm_entry, unarm_timer, add_timer, register, arm}
use or3_intern.Cron.ArmKeeps.{arm-keeps}

-- there is a scheduler
abbrev pub HasScheduler : {L : CronLibrary} → Service L → Type 0
HasScheduler {L} s = (c : L.Scheduler) × (s.c ≡ some c)

module _ {L : CronLibrary} where
  unarm_timer-HasScheduler :
      (id : String) (o : Option ℕ) (s : Service L)
      → HasScheduler s
      → HasScheduler (unarm_timer id o s)
  unfolding unarm_timer
  unarm_timer-HasScheduler id none s h = h
  unarm_timer-HasScheduler id (some x) s h = h

  unarm_entry-HasScheduler :
      (id : String) (c : Option L.Scheduler) (o : Option ℕ) (s : Service L)
      → HasScheduler s
      → HasScheduler (unarm_entry id c o s)
  unfolding unarm_entry
  unarm_entry-HasScheduler id none o s h = h
  unarm_entry-HasScheduler id (some c) none s h = h
  unarm_entry-HasScheduler id (some c) (some x) s h = (L.remove c x, refl)

  register-HasScheduler :
      (id : String) (s : Service L) (o : Option (ℕ × L.Scheduler))
      → HasScheduler s
      → HasScheduler (register id s o)
  unfolding register
  register-HasScheduler id s none h = h
  register-HasScheduler id s (some (e, after)) h = (after, refl)

  pub unarm-HasScheduler :
      (id : String) (s : Service L) → HasScheduler s → HasScheduler (unarm id s)
  unfolding unarm
  unarm-HasScheduler id s h =
      unarm_timer-HasScheduler id _ _ (unarm_entry-HasScheduler id s.c (lookup id s.entries) s h)

  pub arm-HasScheduler :
      (calendar : Calendar) (now : ℕ) (job : CronJob) (s : Service L)
      → HasScheduler s
      → HasScheduler (arm calendar now job s)
  unfolding add_timer
  arm-HasScheduler calendar now job s h =
      arm-keeps (λ (t : Service L). HasScheduler t) job (unarm-HasScheduler job.id) (λ t w. w)
        (λ t c spec o is added w. register-HasScheduler job.id t o w) calendar now s h
