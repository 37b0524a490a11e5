-- ===== src/Cron/Enabled.antt =====
-- Which jobs of a list are enabled, after each change of the list.
use or3_intern.Base.{
  ◌≡◌, true, false, String, str_eq, eq_iff, eq_refl, none, some, List, [], ◌∷◌, ◌++◌, arith,
}
use or3_intern.Cron.Types.{CronJob}
use or3_intern.Cron.Service.{find_job, replace_job, remove_job}
use or3_intern.Cron.Sound.{is_enabled}
use or3_intern.Cron.JobList.{find_job-append, find_job-replace_job, find_job-remove_job}

pub is_enabled-append :
    (j : String) (jobs : List CronJob) (new : CronJob)
    → find_job new.id jobs ≡ none
    → is_enabled j jobs ≡ true
    → is_enabled j (jobs ++ (new ∷ [])) ≡ true
unfolding is_enabled
is_enabled-append j jobs new absent e =
    ground (arith, find_job-append j jobs new absent, eq_iff new.id j)

pub is_enabled-append_new :
    (jobs : List CronJob) (new : CronJob)
    → find_job new.id jobs ≡ none
    → is_enabled new.id (jobs ++ (new ∷ [])) ≡ new.enabled
unfolding is_enabled
is_enabled-append_new jobs new absent =
    ground (arith, find_job-append new.id jobs new absent, eq_refl new.id)

pub is_enabled-replace_same :
    (id : String) (next current : CronJob) (jobs : List CronJob)
    → next.id ≡ id
    → find_job id jobs ≡ some current
    → is_enabled next.id (replace_job id next jobs) ≡ next.enabled
unfolding is_enabled
is_enabled-replace_same id next current jobs is found =
    ground (arith, find_job-replace_job id next.id next current jobs is found, eq_iff id next.id)

pub is_enabled-replace_other :
    (id j : String) (next current : CronJob) (jobs : List CronJob)
    → next.id ≡ id
    → find_job id jobs ≡ some current
    → str_eq id j ≡ false
    → is_enabled j (replace_job id next jobs) ≡ is_enabled j jobs
unfolding is_enabled
is_enabled-replace_other id j next current jobs is found differs =
    ground (arith, find_job-replace_job id j next current jobs is found)

pub is_enabled-remove_other :
    (id j : String) (jobs : List CronJob)
    → str_eq id j ≡ false
    → is_enabled j (remove_job id jobs) ≡ is_enabled j jobs
unfolding is_enabled
is_enabled-remove_other id j jobs differs = ground (arith, find_job-remove_job id j jobs)
