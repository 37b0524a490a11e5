-- ===== src/Cron/JobList.antt =====
-- The lists of jobs that the service saves: what is found under an id after each change of the list.
use or3_intern.Base.{
  inl, inr, Bool-cases, ◌≡◌, ◌≢◌, refl, ap, String, str_eq, eq_iff, eq_refl, none, some, List, [],
  ◌∷◌, ◌++◌, Distinct, All, All-append, arith, if◌then◌else◌,
}
use or3_intern.Cron.Types.{CronJob}
use or3_intern.Cron.Service.{find_job, replace_job, remove_job}
use or3_intern.Cron.Sound.{job_ids}

pub find_job-id :
    (id : String) (jobs : List CronJob) {j : CronJob} → find_job id jobs ≡ some j → j.id ≡ id
unfolding find_job
find_job-id id [] e = absurd (cc)
find_job-id id (k ∷ jobs) {j = j} e = ground (arith, eq_iff k.id id, find_job-id id jobs {j = j})

pub find_job-append :
    (id : String) (jobs : List CronJob) (new : CronJob)
    → find_job new.id jobs ≡ none
    → find_job id (jobs ++ (new ∷ [])) ≡ (if str_eq new.id id then some new else find_job id jobs)
unfolding find_job
find_job-append id [] new e = refl
find_job-append id (j ∷ jobs) new e =
    ground
      (arith, eq_iff j.id id, eq_iff new.id id, eq_iff j.id new.id, find_job-append id jobs new)

pub find_job-replace_job :
    (id j : String) (next current : CronJob) (jobs : List CronJob)
    → next.id ≡ id
    → find_job id jobs ≡ some current
    → find_job j (replace_job id next jobs) ≡ (if str_eq id j then some next else find_job j jobs)
unfolding find_job replace_job
find_job-replace_job id j next current [] is e = absurd (cc)
find_job-replace_job id j next current (k ∷ jobs) is e = ground (
  arith,
  eq_iff k.id id,
  eq_iff k.id j,
  eq_iff id j,
  eq_iff next.id j,
  find_job-replace_job id j next current jobs is,
)

pub find_job-remove_job :
    (id j : String) (jobs : List CronJob)
    → find_job j (remove_job id jobs) ≡ (if str_eq id j then none else find_job j jobs)
unfolding find_job remove_job
find_job-remove_job id j [] = ground arith
find_job-remove_job id j (k ∷ jobs) =
    ground (arith, eq_iff k.id id, eq_iff k.id j, eq_iff id j, find_job-remove_job id j jobs)

absent_ids :
    (id : String) (jobs : List CronJob) → find_job id jobs ≡ none → All (λ k. k ≢ id) (job_ids jobs)
unfolding find_job
absent_ids id [] e = tt
absent_ids id (j ∷ jobs) e =
    (λ is. ground (arith, eq_iff j.id id), absent_ids id jobs (ground arith))

job_ids-append : (xs ys : List CronJob) → job_ids (xs ++ ys) ≡ job_ids xs ++ job_ids ys
job_ids-append [] ys = refl
job_ids-append (x ∷ xs) ys = ap (λ ks. x.id ∷ ks) (job_ids-append xs ys)

Distinct-snoc :
    (ks : List String) (k : String) → Distinct ks → All (λ x. x ≢ k) ks → Distinct (ks ++ (k ∷ []))
Distinct-snoc [] k d h = (tt, tt)
Distinct-snoc (x ∷ ks) k d h =
    (All-append (λ y. x ≢ y) ks (k ∷ []) d.0 (h.0, tt), Distinct-snoc ks k d.1 h.1)

pub job_ids-replace_job :
    (id : String) (next : CronJob) (jobs : List CronJob)
    → next.id ≡ id
    → job_ids (replace_job id next jobs) ≡ job_ids jobs
unfolding replace_job
job_ids-replace_job id next [] is = refl
job_ids-replace_job id next (j ∷ jobs) is = elim (Bool-cases (str_eq j.id id)) [
  | inl same ↦ rw same (ap (λ k. k ∷ job_ids jobs) (cc (is, (eq_iff j.id id).0 same)))
  | inr differs ↦ rw differs (ap (λ ks. j.id ∷ ks) (job_ids-replace_job id next jobs is))
]

All-ids-remove_job :
    (P : String → Type 0) (id : String) (jobs : List CronJob)
    → All P (job_ids jobs)
    → All P (job_ids (remove_job id jobs))
unfolding remove_job
All-ids-remove_job P id [] h = tt
All-ids-remove_job P id (j ∷ jobs) h = elim (Bool-cases (str_eq j.id id)) [
  | inl same ↦ rw same (All-ids-remove_job P id jobs h.1)
  | inr differs ↦ rw differs (h.0, All-ids-remove_job P id jobs h.1)
]

pub Distinct-remove_job :
    (id : String) (jobs : List CronJob)
    → Distinct (job_ids jobs)
    → Distinct (job_ids (remove_job id jobs))
unfolding remove_job
Distinct-remove_job id [] d = tt
Distinct-remove_job id (j ∷ jobs) d = elim (Bool-cases (str_eq j.id id)) [
  | inl same ↦ rw same (Distinct-remove_job id jobs d.1)
  | inr differs ↦
      rw differs (All-ids-remove_job (λ k. j.id ≢ k) id jobs d.0, Distinct-remove_job id jobs d.1)
]

pub Distinct-append_job :
    (jobs : List CronJob) (new : CronJob)
    → find_job new.id jobs ≡ none
    → Distinct (job_ids jobs)
    → Distinct (job_ids (jobs ++ (new ∷ [])))
Distinct-append_job jobs new e d =
    rw (job_ids-append jobs (new ∷ []))
      (Distinct-snoc (job_ids jobs) new.id d (absent_ids new.id jobs e))

found_later :
    (j : CronJob) (jobs rest : List CronJob)
    → All (λ k. j.id ≢ k) (job_ids rest)
    → All (λ k. find_job k.id jobs ≡ some k) rest
    → All (λ k. find_job k.id (j ∷ jobs) ≡ some k) rest
unfolding find_job
found_later j jobs [] ne h = tt
found_later j jobs (k ∷ rest) ne h =
    (ground (arith, eq_iff j.id k.id, ne.0), found_later j jobs rest ne.1 h.1)

found_first : (j : CronJob) (jobs : List CronJob) → find_job j.id (j ∷ jobs) ≡ some j
unfolding find_job
found_first j jobs = ground (arith, eq_refl j.id)

-- Where the ids are distinct, each job is the one found under its id.
pub All-find_job :
    (jobs : List CronJob) → Distinct (job_ids jobs) → All (λ j. find_job j.id jobs ≡ some j) jobs
All-find_job [] d = tt
All-find_job (j ∷ jobs) d =
    (found_first j jobs, found_later j jobs jobs d.0 (All-find_job jobs d.1))
