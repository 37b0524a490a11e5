-- ===== src/Cron/Keeps.antt =====
-- Each operation of internal/cron/cron.go keeps what holds of the service between operations.
use mathlib.Core.Path.{subst}
use or3_intern.Base.{
  ◌⊎◌, inl, inr, Bool-cases, Option-cases, ◌≡◌, refl, ap, ◌∙◌, Bool, true, false, String, str_eq,
  eq_iff, Option, none, some, List, [], ◌∷◌, ◌++◌, Distinct, arith, if◌then◌else◌,
}
use or3_intern.Base.Text.{trim_space}
use or3_intern.Cron.Types.{CronJob, save_failed, Calendar}
use or3_intern.Cron.Schedule.{prepare_job}
use or3_intern.Cron.Clocks.{CronLibrary}
use or3_intern.Cron.Service.{
  Service, Io, Times, Outcome, find_job, replace_job, remove_job, unarm, arm,
}
use or3_intern.Cron.Edits.{
  new_job, add_refusal, updated_job, toggled_job, enable_refusal, update_refusal, toggle_refusal,
}
use or3_intern.Cron.Operations.{
  saved_or, add, reschedule, update, update_found, set_enabled, set_enabled_found,
}
use or3_intern.Cron.Sound.{
  Sound, Unknown, is_enabled, job_ids, unarm-Sound, unarm-Unknown, disk-unarm,
}
use or3_intern.Cron.Arming.{arm-Sound}
use or3_intern.Cron.Enabled.{
  is_enabled-append, is_enabled-append_new, is_enabled-replace_same, is_enabled-replace_other,
  is_enabled-remove_other,
}
use or3_intern.Cron.JobList.{
  find_job-id, job_ids-replace_job, Distinct-remove_job, Distinct-append_job,
}

module _ {L : CronLibrary} where
  -- another list of jobs, in which every job that the maps know is still enabled
  pub disk-Sound :
      (s : Service L) (jobs : List CronJob)
      → ((j : String) → Unknown j s ⊎ (is_enabled j s.disk ≡ true → is_enabled j jobs ≡ true))
      → Distinct (job_ids jobs)
      → Sound s
      → Sound (record s { disk = jobs })
  disk-Sound s jobs keeps d v = record {
    owned = v.owned;
    timed = v.timed;
    enabled_entry = λ j e p. elim (keeps j) [
      | inl unknown ↦ absurd (cc (unknown.no_entry))
      | inr still ↦ still (v.enabled_entry j e p)
    ];
    enabled_timer = λ j h p. elim (keeps j) [
      | inl unknown ↦ absurd (cc (unknown.no_timer))
      | inr still ↦ still (v.enabled_timer j h p)
    ];
    alone = v.alone;
    idle = v.idle;
    distinct = d;
  }

  Sound-saved_or : (b : Bool) (s t : Service L) → Sound s → Sound t → Sound (saved_or b s t).0
  unfolding saved_or
  Sound-saved_or true s t v w = v
  Sound-saved_or false s t v w = w

  pub removed-Sound :
      (id : String) (s : Service L)
      → Unknown id s
      → Sound s
      → Sound (record s { disk = remove_job id s.disk })
  removed-Sound id s unknown v =
      disk-Sound s (remove_job id s.disk) keeps (Distinct-remove_job id s.disk v.distinct) v
    where
      keeps :
          (j : String)
          → Unknown j s ⊎ (is_enabled j s.disk ≡ true → is_enabled j (remove_job id s.disk) ≡ true)
      keeps j = elim (Bool-cases (str_eq id j)) [
        | inl same ↦ inl (subst (λ k. Unknown k s) ((eq_iff id j).0 same) unknown)
        | inr differs ↦ inr (λ e. is_enabled-remove_other id j s.disk differs ∙ e)
      ]

  -- a job of the store replaced, after it was taken out of the schedule
  pub replaced-Sound :
      (id : String) (next current : CronJob) (s : Service L)
      → next.id ≡ id
      → find_job id s.disk ≡ some current
      → Unknown id s
      → Sound s
      → Sound (record s { disk = replace_job id next s.disk })
  replaced-Sound id next current s is found unknown v =
      disk-Sound s (replace_job id next s.disk) keeps
        (rw (job_ids-replace_job id next s.disk is) v.distinct) v
    where
      keeps :
          (j : String)
          → Unknown j s
            ⊎ (is_enabled j s.disk ≡ true → is_enabled j (replace_job id next s.disk) ≡ true)
      keeps j = elim (Bool-cases (str_eq id j)) [
        | inl same ↦ inl (subst (λ k. Unknown k s) ((eq_iff id j).0 same) unknown)
        | inr differs ↦
            inr (λ e. is_enabled-replace_other id j next current s.disk is found differs ∙ e)
      ]

-- What lies behind an `Add` that is not refused.
add_refusal-none :
    (calendar : Calendar) (io : Io) (job named : CronJob) (jobs : List CronJob)
    → add_refusal calendar io job named jobs ≡ none
    → find_job named.id jobs ≡ none
unfolding add_refusal
add_refusal-none calendar io job named jobs e = elim (Option-cases (find_job named.id jobs)) [
  | inl absent ↦ absent
  | inr (j, found) ↦ ground arith
]

module _ {L : CronLibrary} (calendar : Calendar) where
  added-Sound :
      (times : Times) (next : CronJob) (s : Service L)
      → find_job next.id s.disk ≡ none
      → Sound s
      → Sound (arm calendar times.armed next (record s { disk = s.disk ++ (next ∷ []) }))
  added-Sound times next s absent v =
      arm-Sound calendar times.armed next (record s { disk = s.disk ++ (next ∷ []) })
        (λ on. is_enabled-append_new s.disk next absent ∙ on)
        (disk-Sound s (s.disk ++ (next ∷ [])) (λ j. inr (is_enabled-append j s.disk next absent))
          (Distinct-append_job s.disk next absent v.distinct) v)

  pub add-Sound :
      (io : Io) (times : Times) (random : String) (job : CronJob) (s : Service L)
      → Sound s
      → Sound (add calendar io times random job s).0
  unfolding add prepare_job
  add-Sound io times random job s v =
      elim (Option-cases (add_refusal calendar io job (new_job random times job) s.disk)) [
        | inl accepted ↦
            rw (accepted, add)
              (Sound-saved_or io.save _ s
                (added-Sound times (prepare_job calendar (new_job random times job) times.prepared)
                  s (add_refusal-none calendar io job (new_job random times job) s.disk accepted) v)
                v)
        | inr (e, refused) ↦ rw (refused, add) v
      ]

  pub reschedule-Sound :
      (io : Io) (times : Times) (id : String) (next current fallback : CronJob) (s : Service L)
      → next.id ≡ id
      → find_job id s.disk ≡ some current
      → Sound s
      → Sound (reschedule calendar io times id next fallback s).0
  unfolding reschedule
  reschedule-Sound io times id next current fallback s is found v = go io.save
    where
      cleared : Service L
      cleared = unarm id s

      still : find_job id cleared.disk ≡ some current
      still = ap (find_job id) (disk-unarm id s) ∙ found

      armed : Service L
      armed =
          arm calendar times.armed next (record cleared { disk = replace_job id next cleared.disk })

      go :
          (b : Bool)
          → Sound
              (if◌then◌else◌ {A = Service L × Outcome} b
                (armed, (some next, none))
                (cleared, (some fallback, some save_failed))).0
      go true =
          arm-Sound calendar times.armed next
            (record cleared { disk = replace_job id next cleared.disk })
            (λ on. is_enabled-replace_same id next current cleared.disk is still ∙ on)
            (replaced-Sound id next current cleared is still (unarm-Unknown id s v)
              (unarm-Sound id s v))
      go false = unarm-Sound id s v

  update_found-Sound :
      (io : Io) (times : Times) (id : String) (job : CronJob) (s : Service L) (o : Option CronJob)
      → find_job id s.disk ≡ o
      → Sound s
      → Sound (update_found calendar io times id job s o).0
  unfolding update_found updated_job prepare_job
  update_found-Sound io times id job s none e v = v
  update_found-Sound io times id job s (some current) e v =
      reschedule-Sound io times id (updated_job calendar times id job current) current current s
        refl e v

  pub update-Sound :
      (io : Io) (times : Times) (id : String) (job : CronJob) (s : Service L)
      → Sound s
      → Sound (update calendar io times id job s).0
  unfolding update
  update-Sound io times id job s v =
      elim (Option-cases (update_refusal calendar io (trim_space id) job)) [
        | inl accepted ↦
            rw (accepted, update) (update_found-Sound io times (trim_space id) job s _ refl v)
        | inr (e, refused) ↦ rw (refused, update) v
      ]

  set_enabled_found-Sound :
      (io : Io) (times : Times) (id : String) (enabled : Bool) (s : Service L) (o : Option CronJob)
      → find_job id s.disk ≡ o
      → Sound s
      → Sound (set_enabled_found calendar io times id enabled s o).0
  unfolding set_enabled_found toggled_job prepare_job
  set_enabled_found-Sound io times id enabled s none e v = v
  set_enabled_found-Sound io times id enabled s (some current) e v =
      elim (Option-cases (enable_refusal calendar enabled current)) [
        | inl accepted ↦
            let next : CronJob = toggled_job calendar times enabled current in
            rw (accepted, set_enabled_found)
              (reschedule-Sound io times id next current next s (find_job-id id s.disk e) e v)
        | inr (outcome, refused) ↦ rw (refused, set_enabled_found) v
      ]

  pub set_enabled-Sound :
      (io : Io) (times : Times) (id : String) (enabled : Bool) (s : Service L)
      → Sound s
      → Sound (set_enabled calendar io times id enabled s).0
  unfolding set_enabled
  set_enabled-Sound io times id enabled s v =
      elim (Option-cases (toggle_refusal io (trim_space id))) [
        | inl accepted ↦
            rw (accepted, set_enabled)
              (set_enabled_found-Sound io times (trim_space id) enabled s _ refl v)
        | inr (e, refused) ↦ rw (refused, set_enabled) v
      ]
