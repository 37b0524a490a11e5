-- ===== src/Cron/KeepsRuns.antt =====
-- Removing a job, running one, starting and stopping keep what holds of the service between operations.
use mathlib.Core.Path.{subst}
use or3_intern.Base.{
  inl, inr, Option-cases, ℕ, ◌≡◌, refl, ◌∙◌, Bool, true, false, ◌&&◌, String, eq_iff, Option, none,
  some, List, arith, if◌then◌else◌,
}
use or3_intern.Cron.Types.{CronJob, CronError, Calendar}
use or3_intern.Cron.Schedule.{prepare_job}
use or3_intern.Cron.Clocks.{CronLibrary, stop_timer, find-without}
use or3_intern.Cron.Service.{Service, Io, Times, find_job, replace_job, remove_job, unarm}
use or3_intern.Cron.Edits.{ready}
use or3_intern.Cron.Operations.{remove, remove_found}
use or3_intern.Cron.Runs.{Ran, succeeded, finished_job, fire, save_jobs, finish_found, run_finish}
use or3_intern.Cron.Sound.{Sound, is_enabled, unarm-Sound, unarm-Unknown, disk-unarm}
use or3_intern.Cron.JobList.{find_job-id, find_job-replace_job, job_ids-replace_job}
use or3_intern.Cron.Keeps.{disk-Sound, removed-Sound}

replaced_is_enabled :
    (id j : String) (next current : CronJob) (jobs : List CronJob)
    → next.id ≡ id
    → next.enabled ≡ current.enabled
    → find_job id jobs ≡ some current
    → is_enabled j (replace_job id next jobs) ≡ is_enabled j jobs
unfolding is_enabled
replaced_is_enabled id j next current jobs is alike found =
    ground (arith, find_job-replace_job id j next current jobs is found, eq_iff id j)

module _ {L : CronLibrary} where
  remove_found-Sound :
      (b : Bool) (id : String) (s : Service L) (o : Option CronJob)
      → Sound s
      → Sound (remove_found b id s o).0
  unfolding remove_found
  remove_found-Sound b id s none v = v
  remove_found-Sound true id s (some _) v =
      removed-Sound id (unarm id s) (unarm-Unknown id s v) (unarm-Sound id s v)
  remove_found-Sound false id s (some _) v = unarm-Sound id s v

  pub remove-Sound : (io : Io) (id : String) (s : Service L) → Sound s → Sound (remove io id s).0
  unfolding remove
  remove-Sound io id s v = elim (Option-cases (ready io)) [
    | inl accepted ↦ rw (accepted, remove) (remove_found-Sound io.save id s (find_job id s.disk) v)
    | inr (e, refused) ↦ rw (refused, remove) v
  ]

  pub fire-Sound : (handle : ℕ) (s : Service L) → Sound s → Sound (fire handle s)
  unfolding fire stop_timer
  fire-Sound handle s v = record {
    owned = v.owned;
    timed = λ h id e. v.timed h id (ground (arith, find-without handle h s.clock.pending));
    enabled_entry = v.enabled_entry;
    enabled_timer = v.enabled_timer;
    alone = v.alone;
    idle = v.idle;
    distinct = v.distinct;
  }

  -- a job of the store replaced by one that is as much enabled
  replaced_alike :
      (id : String) (next current : CronJob) (s : Service L)
      → next.id ≡ id
      → next.enabled ≡ current.enabled
      → find_job id s.disk ≡ some current
      → Sound s
      → Sound (record s { disk = replace_job id next s.disk })
  replaced_alike id next current s is alike found v =
      disk-Sound s (replace_job id next s.disk)
        (λ j. inr (λ e. replaced_is_enabled id j next current s.disk is alike found ∙ e))
        (rw (job_ids-replace_job id next s.disk is) v.distinct) v

  save_jobs-Sound :
      (b : Bool) (jobs : List CronJob) (s : Service L)
      → Sound (record s { disk = jobs })
      → Sound s
      → Sound (save_jobs b jobs s).0
  unfolding save_jobs
  save_jobs-Sound true jobs s w v = w
  save_jobs-Sound false jobs s w v = v

  Sound-choice :
      (b : Bool) (s t : Service L × Option CronError)
      → Sound s.0
      → Sound t.0
      → Sound (if◌then◌else◌ {A = Service L × Option CronError} b s t).0
  Sound-choice true s t v w = v
  Sound-choice false s t v w = w

  finish_found-Sound :
      (calendar : Calendar) (io : Io) (times : Times) (id : String) (ran : Ran) (s : Service L)
      (o : Option CronJob)
      → find_job id s.disk ≡ o
      → Sound s
      → Sound (finish_found calendar io times id ran s o).0
  unfolding finish_found finished_job prepare_job
  finish_found-Sound calendar io times id ran s none e v = v
  finish_found-Sound calendar io times id ran s (some latest) e v =
      Sound-choice (latest.delete_after_run && succeeded ran.error) _ _
        (save_jobs-Sound io.save (remove_job id s.disk) (unarm id s)
          (subst (λ jobs. Sound (record (unarm id s) { disk = remove_job id jobs }))
            (disk-unarm id s)
            (removed-Sound id (unarm id s) (unarm-Unknown id s v) (unarm-Sound id s v)))
          (unarm-Sound id s v))
        (save_jobs-Sound io.save _ s
          (replaced_alike id (prepare_job calendar (finished_job times ran latest) times.prepared)
            latest s (find_job-id id s.disk e) refl e v)
          v)

  pub run_finish-Sound :
      (calendar : Calendar) (io : Io) (times : Times) (id : String) (ran : Ran) (s : Service L)
      → Sound s
      → Sound (run_finish calendar io times id ran s).0
  unfolding run_finish
  run_finish-Sound calendar io times id ran s v = elim (Option-cases (ready io)) [
    | inl accepted ↦
        rw (accepted, run_finish)
          (finish_found-Sound calendar io times id ran s (find_job id s.disk) refl v)
    | inr (e, refused) ↦ rw (refused, run_finish) v
  ]
