-- ===== src/Cron/Sqlite.antt =====
-- internal/cron/cron.go: the store in a SQLite table (`saveSQLite`, `loadSQLite`), where the database
-- answers. A row holds the job's text; an error rolls the transaction back, and leaves the table.
use or3_intern.Base.{
  Bool, ◌&&◌, ◌||◌, String, str_eq, Option, some, ◌>>=◌, List, [], ◌∷◌, if◌then◌else◌,
}
use or3_intern.Base.Int.{ℤ, ltb_ℤ, eq_ℤ}
use or3_intern.Base.Text.{member}
use or3_intern.Cron.Types.{CronJob}
use or3_intern.Cron.Sound.{job_ids}

-- `json.Marshal` and `json.Unmarshal` on jobs; none is an error
pub record JobJson : Type 0 where
  pub marshal : CronJob → Option String
  pub unmarshal : String → Option CronJob

-- a row of `cron_jobs`
pub record Row : Type 0 where
  pub id : String
  pub job_json : String
  pub updated_at_ms : ℤ

abbrev pub row_of : CronJob → String → Row
row_of job text = record { id = job.id; job_json = text; updated_at_ms = job.updated_at_ms }

-- INSERT … ON CONFLICT(id) DO UPDATE SET …
unfoldable pub upsert : CronJob → String → List Row → List Row
upsert job text [] = row_of job text ∷ []
upsert job text (r ∷ rows) =
    if str_eq r.id job.id then row_of job text ∷ rows else r ∷ upsert job text rows

-- the first loop of `saveSQLite`
unfoldable pub upsert_all : JobJson → List CronJob → List Row → Option (List Row)
upsert_all json [] rows = some rows
upsert_all json (job ∷ jobs) rows = do
  text ← json.marshal job
  upsert_all json jobs (upsert job text rows)

-- the ids of the table that are not among the saved ones
unfoldable pub stale_ids : List String → List Row → List String
stale_ids seen [] = []
stale_ids seen (r ∷ rows) =
    let rest = stale_ids seen rows in if member r.id seen then rest else r.id ∷ rest

-- DELETE FROM cron_jobs WHERE id = ?
unfoldable pub delete_row : String → List Row → List Row
delete_row id [] = []
delete_row id (r ∷ rows) =
    let rest = delete_row id rows in if str_eq r.id id then rest else r ∷ rest

unfoldable pub delete_all : List String → List Row → List Row
delete_all [] rows = rows
delete_all (id ∷ ids) rows = delete_all ids (delete_row id rows)

-- `saveSQLite`: the table after it, none where it fails, which leaves the table
unfoldable pub save_sqlite : JobJson → List CronJob → List Row → Option (List Row)
unfolding upsert_all stale_ids delete_all
save_sqlite json jobs rows = do
  saved ← upsert_all json jobs rows
  some (delete_all (stale_ids (job_ids jobs) saved) saved)

-- ORDER BY updated_at_ms, id
unfoldable pub row_before : (String → String → Bool) → Row → Row → Bool
row_before text_before a b =
    ltb_ℤ a.updated_at_ms b.updated_at_ms
    || (eq_ℤ a.updated_at_ms b.updated_at_ms && text_before a.id b.id)

unfoldable pub insert_row : (String → String → Bool) → Row → List Row → List Row
insert_row text_before r [] = r ∷ []
insert_row text_before r (q ∷ rows) =
    if row_before text_before q r then q ∷ insert_row text_before r rows else r ∷ q ∷ rows

unfoldable pub order_rows : (String → String → Bool) → List Row → List Row
order_rows text_before [] = []
order_rows text_before (r ∷ rows) = insert_row text_before r (order_rows text_before rows)

-- the loop over the rows
unfoldable pub jobs_of : JobJson → List Row → Option (List CronJob)
jobs_of json [] = some []
jobs_of json (r ∷ rows) = do
  job ← json.unmarshal r.job_json
  jobs ← jobs_of json rows
  some (job ∷ jobs)

-- `loadSQLite`; `text_before` is the database's order of texts, none an error
unfoldable pub load_sqlite : JobJson → (String → String → Bool) → List Row → Option (List CronJob)
unfolding order_rows jobs_of
load_sqlite json text_before rows = jobs_of json (order_rows text_before rows)
