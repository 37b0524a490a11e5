-- ===== src/Cron/ArmKeeps.antt =====
-- What `armJobLocked` of internal/cron/cron.go leaves as it is.
use or3_intern.Base.{
  ℕ, ◌≡◌, refl, ◌∙◌, Bool, true, false, String, str_eq, Option, none, some, if◌then◌else◌,
}
use or3_intern.Base.Int.{pos, ltb_ℤ, quotient, mul_int64}
use or3_intern.Cron.Types.{CronJob, Calendar}
use or3_intern.Cron.Clocks.{CronLibrary, Spec, every_spec}
use or3_intern.Cron.Service.{
  Service, unarm, arm, arm_from, arm_with, is_armable, cron_spec, times_million, arm_kind,
  add_timer, add_every, add_entry, register,
}
use or3_intern.Cron.Sound.{disk-unarm}

-- A property of the service that arming a job keeps, since taking the job out of the schedule and
-- adding its timer or its entry do.
module _ {L : CronLibrary} (P : Service L → Type 0) (job : CronJob)
    (unarms : (s : Service L) → P s → P (unarm job.id s))
    (adds : (s : Service L) → P s → P (add_timer job.id s))
    (registers : (s : Service L) (c : L.Scheduler) (spec : Spec) (o : Option (ℕ × L.Scheduler))
      → s.c ≡ some c
      → L.add_func c spec job.id ≡ o
      → P s
      → P (register job.id s o)) where
  if-keeps : (b : Bool) (s t : Service L) → P s → P t → P (if b then s else t)
  if-keeps true s t v w = v
  if-keeps false s t v w = w

  arm_kind-keeps :
      (calendar : Calendar) (now : ℕ) (s : Service L) (c : L.Scheduler)
      → s.c ≡ some c
      → P s
      → P (arm_kind calendar now job s c)
  unfolding arm_kind add_every add_entry
  arm_kind-keeps calendar now s c on v =
      (if-keeps (str_eq job.schedule.kind "at") _ _
        (if-keeps (ltb_ℤ (pos now) (times_million job.schedule.at_ms)) _ _ (adds s v) v)
        (if-keeps (str_eq job.schedule.kind "every") _ _
          (if-keeps (ltb_ℤ (pos 0) (quotient job.schedule.every_ms 1000)) _ _
            (registers s c (every_spec (mul_int64 (quotient job.schedule.every_ms 1000) 1000000000))
              _ on refl v)
            v)
          (if-keeps (str_eq job.schedule.kind "cron") _ _
            (registers s c (cron_spec calendar job.schedule) _ on refl v) v)))

  arm_with-keeps :
      (calendar : Calendar) (now : ℕ) (s : Service L) (o : Option L.Scheduler)
      → s.c ≡ o
      → P s
      → P (arm_with calendar now job s o)
  unfolding arm_with
  arm_with-keeps calendar now s none on v = v
  arm_with-keeps calendar now s (some c) on v =
      if-keeps (is_armable calendar job) _ _ (arm_kind-keeps calendar now s c on v) v

  arm_from-keeps :
      (calendar : Calendar) (now : ℕ) (s : Service L) (o : Option L.Scheduler)
      → P s
      → P (arm_from calendar now job s o)
  unfolding arm_from
  arm_from-keeps calendar now s none v = v
  arm_from-keeps calendar now s (some _) v =
      arm_with-keeps calendar now (unarm job.id s) _ refl (unarms s v)

  pub arm-keeps : (calendar : Calendar) (now : ℕ) (s : Service L) → P s → P (arm calendar now job s)
  unfolding arm
  arm-keeps calendar now s v = arm_from-keeps calendar now s s.c v

module _ {L : CronLibrary} where
  pub disk-register :
      (id : String) (s : Service L) (o : Option (ℕ × L.Scheduler)) → (register id s o).disk ≡ s.disk
  unfolding register
  disk-register id s none = refl
  disk-register id s (some (e, c)) = refl

  -- `armJobLocked` leaves the store.
  pub disk-arm :
      (calendar : Calendar) (now : ℕ) (job : CronJob) (s : Service L)
      → (arm calendar now job s).disk ≡ s.disk
  unfolding add_timer
  disk-arm calendar now job s =
      arm-keeps (λ (t : Service L). t.disk ≡ s.disk) job (λ t e. disk-unarm job.id t ∙ e) (λ t e. e)
        (λ t c spec o on is e. disk-register job.id t o ∙ e) calendar now s refl
