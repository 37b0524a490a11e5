-- ===== src/Cron/Stored.antt =====
-- The store in a SQLite table gives back the jobs that were saved last (internal/cron/cron.go).
use or3_intern.Base.{
  inl, inr, Bool-cases, ◌≡◌, refl, ap, sym, ◌∙◌, Bool, String, str_eq, eq_iff, none, some, List, [],
  ◌∷◌, Distinct, All, arith, if◌then◌else◌,
}
use or3_intern.Cron.Types.{CronJob}
use or3_intern.Cron.Service.{find_job}
use or3_intern.Cron.Sound.{job_ids}
use or3_intern.Cron.Sqlite.{
  JobJson, Row, save_sqlite, row_before, insert_row, order_rows, jobs_of, load_sqlite,
}
use or3_intern.Cron.Saved.{find_row, IsRow, IsTable, HasText, absent_ids, save_sqlite-rows}

module _ (json : JobJson) (text_before : String → String → Bool) where
  find_row-insert_row :
      (j : String) (r : Row) (rows : List Row)
      → find_row json r.id rows ≡ none
      → IsTable json rows
      → find_row json j (insert_row text_before r rows)
        ≡ (if str_eq r.id j then json.unmarshal r.job_json else find_row json j rows)
  unfolding find_row insert_row
  find_row-insert_row j r [] e t = refl
  find_row-insert_row j r (q ∷ rows) e ((job, read, named), absent, t) =
      elim (Bool-cases (row_before text_before q r)) [
        | inl before ↦ ground (
          arith,
          eq_iff q.id r.id,
          eq_iff q.id j,
          eq_iff r.id j,
          read,
          find_row-insert_row j r rows (ground (arith, read)) t,
        )
        | inr after ↦ rw after refl
      ]

  insert_row-IsTable :
      (r : Row) (rows : List Row)
      → IsRow json r
      → find_row json r.id rows ≡ none
      → IsTable json rows
      → IsTable json (insert_row text_before r rows)
  unfolding find_row insert_row
  insert_row-IsTable r [] is e t = (is, refl, tt)
  insert_row-IsTable r (q ∷ rows) is e t = elim (Bool-cases (row_before text_before q r)) [
    | inl before ↦
        let read : json.unmarshal q.job_json ≡ some t.0.0 = t.0.1 in
        let absent : find_row json r.id rows ≡ none = ground (arith, read) in
        rw before (
          t.0,
          find_row-insert_row q.id r rows absent t.2
              ∙ ground (arith, read, eq_iff q.id r.id, eq_iff r.id q.id, t.1),
          insert_row-IsTable r rows is absent t.2,
        )
    | inr after ↦ rw after (is, e, t)
  ]

  -- Ordering the rows keeps what they hold.
  order_rows-IsTable :
      (rows : List Row)
      → IsTable json rows
      → IsTable json (order_rows text_before rows)
        × ((j : String) → find_row json j (order_rows text_before rows) ≡ find_row json j rows)
  unfolding order_rows find_row
  order_rows-IsTable [] t = (tt, λ j. refl)
  order_rows-IsTable (r ∷ rows) t =
      let (table, finds) = order_rows-IsTable rows t.2 in
      let fresh = finds r.id ∙ t.1 in
      (
        insert_row-IsTable r (order_rows text_before rows) t.0 fresh table,
        λ j.
            find_row-insert_row j r (order_rows text_before rows) fresh table
            ∙ ap (λ k. if str_eq r.id j then json.unmarshal r.job_json else k) (finds j),
      )

-- What the rows of a table are read as.
jobs_of-rows :
    (json : JobJson) (rows : List Row)
    → IsTable json rows
    → (jobs : List CronJob) × (jobs_of json rows ≡ some jobs)
      × Distinct (job_ids jobs)
      × ((j : String) → find_job j jobs ≡ find_row json j rows)
unfolding jobs_of find_job find_row
jobs_of-rows json [] t = ([], refl, tt, λ j. refl)
jobs_of-rows json (r ∷ rows) ((job, read, named), absent, t) =
    let (jobs, e, distinct, finds) = jobs_of-rows json rows t in
    (
      job ∷ jobs,
      rw (read, e) refl,
      (
        absent_ids job.id jobs (finds job.id ∙ ap (λ k. find_row json k rows) named ∙ absent),
        distinct,
      ),
      λ j.
          ap (λ k. if str_eq k j then some job else find_job j jobs) named
          ∙ ap (λ k. if str_eq r.id j then k else find_job j jobs) (sym read)
          ∙ ap (λ k. if str_eq r.id j then json.unmarshal r.job_json else k) (finds j),
    )

-- Saving jobs with distinct ids to a SQLite table succeeds, and loading it again succeeds and gives,
-- whatever rows of jobs the table held and whatever the order of texts, the same job under every id, and no
-- id twice; the table again has one row for each id. This is so where JSON reads the text of each of the
-- saved jobs back as the job.
pub load_sqlite-save_sqlite :
    (json : JobJson) (text_before : String → String → Bool) (jobs : List CronJob) (rows : List Row)
    → IsTable json rows
    → Distinct (job_ids jobs)
    → All (HasText json) jobs
    → (after : List Row) × (loaded : List CronJob) × (save_sqlite json jobs rows ≡ some after)
      × (load_sqlite json text_before after ≡ some loaded)
      × ((j : String) → find_job j loaded ≡ find_job j jobs)
      × Distinct (job_ids loaded)
      × IsTable json after
unfolding load_sqlite
load_sqlite-save_sqlite json text_before jobs rows t d texts =
    let (after, saved, table, holds) = save_sqlite-rows json jobs rows texts d t in
    let (ordered, same) = order_rows-IsTable json text_before after table in
    let (loaded, read, distinct, finds) =
      jobs_of-rows json (order_rows text_before after) ordered in
    (after, loaded, saved, read, λ j. finds j ∙ same j ∙ holds j, distinct, table)
