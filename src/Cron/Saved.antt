-- ===== src/Cron/Saved.antt =====
-- The store in a SQLite table: what a table holds, and what a save leaves in it (internal/cron/cron.go).
use or3_intern.Base.{
  inl, inr, Bool-cases, Option-cases, ◌≡◌, ◌≢◌, refl, ap, sym, ◌∙◌, true, false, String, str_eq,
  eq_iff, Option, none, some, List, [], ◌∷◌, Distinct, All, arith, if◌then◌else◌,
}
use or3_intern.Base.Text.{member}
use or3_intern.Cron.Types.{CronJob}
use or3_intern.Cron.Service.{find_job}
use or3_intern.Cron.Sound.{job_ids}
use or3_intern.Cron.Sqlite.{
  JobJson, Row, upsert, upsert_all, stale_ids, delete_row, delete_all, save_sqlite,
}

absent_job :
    (id : String) (jobs : List CronJob) → All (λ k. id ≢ k) (job_ids jobs) → find_job id jobs ≡ none
unfolding find_job
absent_job id [] h = refl
absent_job id (j ∷ jobs) h = ground (arith, eq_iff j.id id, h.0, absent_job id jobs h.1)

pub absent_ids :
    (id : String) (jobs : List CronJob) → find_job id jobs ≡ none → All (λ k. id ≢ k) (job_ids jobs)
unfolding find_job
absent_ids id [] e = tt
absent_ids id (j ∷ jobs) e =
    (λ is. ground (arith, eq_iff j.id id), absent_ids id jobs (ground arith))

abbrev or_row : Option CronJob → Option CronJob → Option CronJob
or_row (some job) row = some job
or_row none row = row

member-job_ids :
    (j : String) (jobs : List CronJob) {job : CronJob}
    → find_job j jobs ≡ some job
    → member j (job_ids jobs) ≡ true
unfolding find_job member
member-job_ids j [] e = absurd (cc)
member-job_ids j (k ∷ jobs) {job = job} e = ground (arith, member-job_ids j jobs {job = job})

not_member-job_ids :
    (j : String) (jobs : List CronJob) → find_job j jobs ≡ none → member j (job_ids jobs) ≡ false
unfolding find_job member
not_member-job_ids j [] e = refl
not_member-job_ids j (k ∷ jobs) e = ground (arith, not_member-job_ids j jobs)

fresh_kept :
    (j : String) (seen : List String) (rows : List Row)
    → member j seen ≡ true
    → member j (stale_ids seen rows) ≡ false
unfolding stale_ids member
fresh_kept j seen [] e = refl
fresh_kept j seen (r ∷ rows) e = elim (Bool-cases (member r.id seen)) [
  | inl here ↦ rw here (fresh_kept j seen rows e)
  | inr gone ↦ rw gone (ground (arith, eq_iff r.id j, fresh_kept j seen rows e))
]

module _ (json : JobJson) where
  -- SELECT job_json … WHERE id = ?, and the job that it is the text of
  unfoldable pub find_row : String → List Row → Option CronJob
  find_row id [] = none
  find_row id (r ∷ rows) = if str_eq r.id id then json.unmarshal r.job_json else find_row id rows

  -- the row holds the text of a job with its id
  abbrev pub IsRow : Row → Type 0
  IsRow r = (job : CronJob) × (json.unmarshal r.job_json ≡ some job) × (job.id ≡ r.id)

  -- A table: each row has a job with its id, and each id one row.
  abbrev pub IsTable : List Row → Type 0
  IsTable [] = Unit {0}
  IsTable (r ∷ rows) = IsRow r × (find_row r.id rows ≡ none) × IsTable rows

  -- The job's text is read back as the job.
  abbrev pub HasText : CronJob → Type 0
  HasText job = (text : String) × (json.marshal job ≡ some text) × (json.unmarshal text ≡ some job)

  find_row-upsert :
      (j : String) (job : CronJob) (text : String) (rows : List Row)
      → json.unmarshal text ≡ some job
      → find_row j (upsert job text rows) ≡ (if str_eq job.id j then some job else find_row j rows)
  unfolding find_row upsert
  find_row-upsert j job text [] e = rw e refl
  find_row-upsert j job text (r ∷ rows) e = ground (
    arith,
    e,
    eq_iff r.id job.id,
    eq_iff job.id j,
    eq_iff r.id j,
    find_row-upsert j job text rows e,
  )

  find_row-delete_row :
      (id j : String) (rows : List Row)
      → find_row j (delete_row id rows) ≡ (if str_eq id j then none else find_row j rows)
  unfolding find_row delete_row
  find_row-delete_row id j [] = ground arith
  find_row-delete_row id j (r ∷ rows) =
      ground (arith, eq_iff r.id id, eq_iff id j, eq_iff r.id j, find_row-delete_row id j rows)

  upsert-IsTable :
      (job : CronJob) (text : String) (rows : List Row)
      → json.unmarshal text ≡ some job
      → IsTable rows
      → IsTable (upsert job text rows)
  unfolding upsert find_row
  upsert-IsTable job text [] e t = ((job, e, refl), refl, tt)
  upsert-IsTable job text (r ∷ rows) e t = elim (Bool-cases (str_eq r.id job.id)) [
    | inl same ↦
        rw same
          ((job, e, refl), ap (λ k. find_row k rows) (sym ((eq_iff r.id job.id).0 same)) ∙ t.1, t.2)
    | inr differs ↦ rw differs (
      t.0,
      ground (
        arith,
        find_row-upsert r.id job text rows e,
        eq_iff job.id r.id,
        eq_iff r.id job.id,
        t.1,
      ),
      upsert-IsTable job text rows e t.2,
    )
  ]

  delete_row-IsTable : (id : String) (rows : List Row) → IsTable rows → IsTable (delete_row id rows)
  unfolding delete_row
  delete_row-IsTable id [] t = tt
  delete_row-IsTable id (r ∷ rows) t = elim (Bool-cases (str_eq r.id id)) [
    | inl same ↦ rw same (delete_row-IsTable id rows t.2)
    | inr differs ↦
        rw differs (
          t.0,
          ground (arith, find_row-delete_row id r.id rows, t.1),
          delete_row-IsTable id rows t.2,
        )
  ]

  delete_all-IsTable :
      (ids : List String) (rows : List Row) → IsTable rows → IsTable (delete_all ids rows)
  unfolding delete_all
  delete_all-IsTable [] rows t = t
  delete_all-IsTable (id ∷ ids) rows t =
      delete_all-IsTable ids (delete_row id rows) (delete_row-IsTable id rows t)

  -- The first loop of the save succeeds, and what the table then holds.
  upsert_all-rows :
      (jobs : List CronJob) (rows : List Row)
      → All HasText jobs
      → Distinct (job_ids jobs)
      → IsTable rows
      → (saved : List Row) × (upsert_all json jobs rows ≡ some saved)
        × IsTable saved
        × ((j : String) → find_row j saved ≡ or_row (find_job j jobs) (find_row j rows))
  unfolding upsert_all find_job
  upsert_all-rows [] rows texts d t = (rows, refl, t, λ j. refl)
  upsert_all-rows (job ∷ jobs) rows texts d t =
      let (text, written, read) = texts.0 in
      let (saved, e, table, finds) =
        upsert_all-rows jobs (upsert job text rows) texts.1 d.1
          (upsert-IsTable job text rows read t) in
      (
        saved,
        rw (written, upsert_all) e,
        table,
        λ j. ground (
          arith,
          finds j,
          find_row-upsert j job text rows read,
          eq_iff job.id j,
          absent_job job.id jobs d.0,
        ),
      )

  find_row-delete_all :
      (j : String) (ids : List String) (rows : List Row)
      → find_row j (delete_all ids rows) ≡ (if member j ids then none else find_row j rows)
  unfolding delete_all member
  find_row-delete_all j [] rows = refl
  find_row-delete_all j (id ∷ ids) rows =
      ground (arith, find_row-delete_all j ids (delete_row id rows), find_row-delete_row id j rows)

  stale_found :
      (j : String) (seen : List String) (rows : List Row) {job : CronJob}
      → member j seen ≡ false
      → find_row j rows ≡ some job
      → member j (stale_ids seen rows) ≡ true
  unfolding stale_ids find_row member
  stale_found j seen [] e found = absurd (cc)
  stale_found j seen (r ∷ rows) {job = job} e found = elim (Bool-cases (member r.id seen)) [
    | inl here ↦ rw here (ground (arith, eq_iff r.id j, stale_found j seen rows {job = job} e))
    | inr gone ↦ rw gone (ground (arith, eq_iff r.id j, stale_found j seen rows {job = job} e))
  ]

  -- A save succeeds, and what the table then holds: of each id, the job saved under it.
  pub save_sqlite-rows :
      (jobs : List CronJob) (rows : List Row)
      → All HasText jobs
      → Distinct (job_ids jobs)
      → IsTable rows
      → (after : List Row) × (save_sqlite json jobs rows ≡ some after)
        × IsTable after
        × ((j : String) → find_row j after ≡ find_job j jobs)
  unfolding save_sqlite
  save_sqlite-rows jobs rows texts d t =
      let (saved, e, table, finds) = upsert_all-rows jobs rows texts d t in
      let seen : List String = job_ids jobs in
      (
        delete_all (stale_ids seen saved) saved,
        rw (e, save_sqlite) refl,
        delete_all-IsTable (stale_ids seen saved) saved table,
        λ j.
            find_row-delete_all j (stale_ids seen saved) saved
            ∙ elim (Option-cases (find_job j jobs)) [
              | inr (job, found) ↦
                  ground
                    (arith, finds j, found, fresh_kept j seen saved (member-job_ids j jobs found))
              | inl absent ↦ elim (Option-cases (find_row j saved)) [
                | inl nothing ↦ ground arith
                | inr (job, left) ↦
                    ground (arith, stale_found j seen saved (not_member-job_ids j jobs absent) left)
              ]
            ],
      )
