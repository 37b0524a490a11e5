-- ===== src/Cron/Outcomes.antt =====
-- What removing a job and the end of a run leave in the store and in the schedule
-- (internal/cron/cron.go).
use or3_intern.Base.{
  ◌⊎◌, inl, inr, Bool-cases, Option-cases, ◌≡◌, refl, ap, ◌∙◌, Bool, true, false, ◌&&◌, String,
  str_eq, eq_refl, Option, none, some, List, arith,
}
use or3_intern.Cron.Types.{CronJob, Calendar}
use or3_intern.Cron.Schedule.{normalize_payload, prepare_job}
use or3_intern.Cron.Clocks.{CronLibrary}
use or3_intern.Cron.Service.{Service, Io, Times, find_job, replace_job, remove_job, unarm}
use or3_intern.Cron.Edits.{ready}
use or3_intern.Cron.Operations.{remove, remove_found}
use or3_intern.Cron.Runs.{Ran, succeeded, finished_job, save_jobs, finish_found, run_finish}
use or3_intern.Cron.Sound.{Sound, Unknown, unarm-Sound, unarm-Unknown, disk-unarm}
use or3_intern.Cron.JobList.{find_job-id, find_job-remove_job, find_job-replace_job}
use or3_intern.Cron.Keeps.{removed-Sound}
use or3_intern.Cron.Machine.{Reach, Reach-Sound, Registration, entry, timer, IsLive}

-- A job is gone from a service: from its store, and from all that could make it run; the other jobs
-- of the store are those of a list.
pub record Gone {L : CronLibrary} (id : String) (jobs : List CronJob) (s : Service L) : Type 0 where
  pub absent : find_job id s.disk ≡ none
  pub silent : (a : Registration) → ¬ (IsLive a id s)
  pub others : (j : String) → str_eq id j ≡ false → find_job j s.disk ≡ find_job j jobs

module _ {L : CronLibrary} where
  silent_of_Unknown :
      (id : String) (s : Service L)
      → Sound s
      → Unknown id s
      → (a : Registration) → ¬ (IsLive a id s)
  silent_of_Unknown id s v unknown (entry e) live = cc (v.owned e id live, unknown.no_entry)
  silent_of_Unknown id s v unknown (timer h) live = cc (v.timed h id live, unknown.no_timer)

  remove_found-Gone :
      (b : Bool) (id : String) (s : Service L) (o : Option CronJob)
      → Sound s
      → (remove_found b id s o).1 ≡ (true, none)
      → Gone id s.disk (remove_found b id s o).0
  unfolding remove_found
  remove_found-Gone b id s none v e = absurd (cc)
  remove_found-Gone false id s (some _) v e = absurd (cc)
  remove_found-Gone true id s (some _) v e =
      let cleared : Service L = unarm id s in
      let unknown : Unknown id cleared = unarm-Unknown id s v in
      record {
        absent = ground (arith, find_job-remove_job id id (unarm id s).disk, eq_refl id);
        silent =
            silent_of_Unknown id (record cleared { disk = remove_job id cleared.disk })
              (removed-Sound id cleared unknown (unarm-Sound id s v))
              (record { no_entry = unknown.no_entry; no_timer = unknown.no_timer });
        others = λ j differs.
            ground (arith, find_job-remove_job id j (unarm id s).disk)
            ∙ ap (find_job j) (disk-unarm id s);
      }

  -- Where `Remove` reports that it removed a job, in any service that its operations lead to: the store
  -- has no job of that id and the same other jobs as before, and no entry of the scheduler and no
  -- pending timer is left that could make it run.
  pub remove-Gone :
      (calendar : Calendar) (io : Io) (id : String) {s : Service L}
      → Reach calendar s
      → (remove io id s).1 ≡ (true, none)
      → Gone id s.disk (remove io id s).0
  unfolding remove
  remove-Gone calendar io id {s} r e = elim (Option-cases (ready io)) [
    | inl accepted ↦
        rw (accepted, remove)
          (remove_found-Gone io.save id s (find_job id s.disk) (Reach-Sound calendar r)
            (rw (accepted, remove) at e))
    | inr (failure, refused) ↦ absurd (cc (rw (refused, remove) at e))
  ]

-- A job after the end of a run: what a user can edit is as it was when the run ended.
pub record SameSettings (before after : CronJob) : Type 0 where
  pub id : after.id ≡ before.id
  pub name : after.name ≡ before.name
  pub enabled : after.enabled ≡ before.enabled
  pub schedule : after.schedule ≡ before.schedule
  pub payload :
      (after.payload ≡ before.payload) ⊎ (after.payload ≡ normalize_payload before.payload)
  pub delete_after_run : after.delete_after_run ≡ before.delete_after_run

-- What the end of a run may do to the job that is stored under its id.
abbrev pub Ended : Ran → Option CronJob → Option CronJob → Type 0
Ended ran none after = after ≡ none
Ended ran (some before) after =
    ((after ≡ none) × (before.delete_after_run ≡ true) × (ran.error ≡ none))
    ⊎ ((job : CronJob) × (after ≡ some job) × SameSettings before job)

unchanged : (ran : Ran) (o : Option CronJob) → Ended ran o o
unchanged ran none = refl
unchanged ran (some job) = inr (
  job,
  refl,
  record {
    id = refl;
    name = refl;
    enabled = refl;
    schedule = refl;
    payload = inl refl;
    delete_after_run = refl;
  },
)

Ended-replaced :
    (calendar : Calendar) (times : Times) (ran : Ran) (before : CronJob) (o : Option CronJob)
    → o ≡ some (prepare_job calendar (finished_job times ran before) times.prepared)
    → Ended ran (some before) o
unfolding prepare_job finished_job
Ended-replaced calendar times ran before o e = inr (
  prepare_job calendar (finished_job times ran before) times.prepared,
  e,
  record {
    id = refl;
    name = refl;
    enabled = refl;
    schedule = refl;
    payload = inr refl;
    delete_after_run = refl;
  },
)

finished_id :
    (calendar : Calendar) (times : Times) (ran : Ran) (job : CronJob)
    → (prepare_job calendar (finished_job times ran job) times.prepared).id ≡ job.id
unfolding prepare_job finished_job
finished_id calendar times ran job = refl

deletes :
    (before : CronJob) (ran : Ran)
    → (before.delete_after_run && succeeded ran.error) ≡ true
    → (before.delete_after_run ≡ true) × (ran.error ≡ none)
deletes before ran e = ground arith

-- What the end of a run leaves of the jobs under each id.
abbrev pub Leaves : {L : CronLibrary} → String → Ran → List CronJob → Service L → Type 0
Leaves id ran jobs s =
    Ended ran (find_job id jobs) (find_job id s.disk)
    × ((j : String) → str_eq id j ≡ false → find_job j s.disk ≡ find_job j jobs)

module _ {L : CronLibrary} where
  saved_removal :
      (b : Bool) (id : String) (ran : Ran) (s : Service L) (latest : CronJob)
      → find_job id s.disk ≡ some latest
      → (latest.delete_after_run ≡ true) × (ran.error ≡ none)
      → Leaves id ran s.disk (save_jobs b (remove_job id s.disk) (unarm id s)).0
  unfolding save_jobs
  saved_removal true id ran s latest e once = (
    rw e (inl (ground (arith, find_job-remove_job id id s.disk, eq_refl id), once.0, once.1)),
    λ j differs. ground (arith, find_job-remove_job id j s.disk),
  )
  saved_removal false id ran s latest e once = (
    rw (ap (find_job id) (disk-unarm id s)) (unchanged ran (find_job id s.disk)),
    λ j differs. ap (find_job j) (disk-unarm id s),
  )

  saved_finish :
      (calendar : Calendar) (times : Times) (b : Bool) (id : String) (ran : Ran) (s : Service L)
      (latest : CronJob)
      → find_job id s.disk ≡ some latest
      → let next = prepare_job calendar (finished_job times ran latest) times.prepared in
        Leaves id ran s.disk (save_jobs b (replace_job id next s.disk) s).0
  unfolding save_jobs
  saved_finish calendar times true id ran s latest e =
      let next : CronJob = prepare_job calendar (finished_job times ran latest) times.prepared in
      let is : next.id ≡ id = finished_id calendar times ran latest ∙ find_job-id id s.disk e in
      (
        rw e (
            Ended-replaced calendar times ran latest (find_job id (replace_job id next s.disk))
              (ground (arith, find_job-replace_job id id next latest s.disk is e, eq_refl id))),
        λ j differs. ground (arith, find_job-replace_job id j next latest s.disk is e),
      )
  saved_finish calendar times false id ran s latest e =
      (unchanged ran (find_job id s.disk), λ j differs. refl)

  finish_found-Leaves :
      (calendar : Calendar) (io : Io) (times : Times) (id : String) (ran : Ran) (s : Service L)
      (o : Option CronJob)
      → find_job id s.disk ≡ o
      → Leaves id ran s.disk (finish_found calendar io times id ran s o).0
  unfolding finish_found
  finish_found-Leaves calendar io times id ran s none e =
      (unchanged ran (find_job id s.disk), λ j d. refl)
  finish_found-Leaves calendar io times id ran s (some latest) e =
      elim (Bool-cases (latest.delete_after_run && succeeded ran.error)) [
        | inl deleted ↦
            rw deleted (saved_removal io.save id ran s latest e (deletes latest ran deleted))
        | inr kept ↦ rw kept (saved_finish calendar times io.save id ran s latest e)
      ]

  -- The end of a run, whatever was done to the jobs since it began and whatever fails of the store:
  -- the stored jobs with other ids stay; a job that is no longer stored does not come back; one that is
  -- keeps what a user can edit (its payload in normal form at most), or is deleted, if it is to be
  -- deleted after its run and the run succeeded.
  pub run_finish-Leaves :
      (calendar : Calendar) (io : Io) (times : Times) (id : String) (ran : Ran) (s : Service L)
      → Leaves id ran s.disk (run_finish calendar io times id ran s).0
  unfolding run_finish
  run_finish-Leaves calendar io times id ran s = elim (Option-cases (ready io)) [
    | inl accepted ↦
        rw (accepted, run_finish)
          (finish_found-Leaves calendar io times id ran s (find_job id s.disk) refl)
    | inr (e, refused) ↦
        rw (refused, run_finish) (unchanged ran (find_job id s.disk), λ j differs. refl)
  ]
