-- ===== src/Cron/Operations.antt =====
-- internal/cron/cron.go: the operations that edit the jobs, each whole under the lock.
use or3_intern.Base.{String, Bool, true, false, Option, none, some, [], ◌∷◌, ◌++◌, if◌then◌else◌}
use or3_intern.Base.Text.{trim_space}
use or3_intern.Cron.Types.{CronJob, CronError, save_failed, not_found, Calendar}
use or3_intern.Cron.Schedule.{prepare_job}
use or3_intern.Cron.Clocks.{CronLibrary}
use or3_intern.Cron.Edits.{
  ready, new_job, add_refusal, updated_job, update_refusal, toggled_job, enable_refusal,
  toggle_refusal,
}
use or3_intern.Cron.Service.{
  Service, Io, Times, Outcome, failure, find_job, replace_job, remove_job, unarm, arm,
}

-- whether a job was removed, and the error
abbrev pub Removal : Type 0
Removal = Bool × Option CronError

module _ {L : CronLibrary} where
  unfoldable pub saved_or : Bool → Service L → Service L → Service L × Option CronError
  saved_or true kept lost = (kept, none)
  saved_or false kept lost = (lost, some save_failed)

  -- the loops of `removeLocked`
  unfoldable pub remove_found : Bool → String → Service L → Option CronJob → Service L × Removal
  remove_found saves id s none = (s, (false, none))
  remove_found saves id s (some _) =
      let cleared = unarm id s in
      if saves
      then (record cleared { disk = remove_job id cleared.disk }, (true, none))
      else (cleared, (false, some save_failed))

  -- `Remove`, with `removeLocked`
  unfoldable pub remove : Io → String → Service L → Service L × Removal
  unfolding remove_found
  remove io id s = elim (ready io) [
    | some e ↦ (s, (false, some e))
    | none ↦ remove_found io.save id s (find_job id s.disk)
  ]

module _ {L : CronLibrary} (calendar : Calendar) where
  -- `Add`; `random` is `randID()`
  unfoldable pub add : Io → Times → String → CronJob → Service L → Service L × Option CronError
  unfolding saved_or
  add io times random job s =
      let named = new_job random times job in
      elim (add_refusal calendar io job named s.disk) [
        | some e ↦ (s, some e)
        | none ↦
            let next = prepare_job calendar named times.prepared in
            saved_or io.save
              (arm calendar times.armed next (record s { disk = s.disk ++ (next ∷ []) })) s
      ]

  -- the end of `Update` and `SetEnabled`: the job is taken out of the schedule, saved and put back
  unfoldable pub reschedule :
      Io → Times → String → CronJob → CronJob → Service L → Service L × Outcome
  reschedule io times id next fallback s =
      let cleared = unarm id s in
      if io.save
      then (
        arm calendar times.armed next (record cleared { disk = replace_job id next cleared.disk }),
        (some next, none),
      )
      else (cleared, (some fallback, some save_failed))

  unfoldable pub update_found :
      Io → Times → String → CronJob → Service L → Option CronJob → Service L × Outcome
  update_found io times id job s none = (s, failure not_found)
  update_found io times id job s (some current) =
      reschedule io times id (updated_job calendar times id job current) current s

  -- `Update`
  unfoldable pub update : Io → Times → String → CronJob → Service L → Service L × Outcome
  unfolding update_found
  update io times id job s =
      let trimmed = trim_space id in
      elim (update_refusal calendar io trimmed job) [
        | some e ↦ (s, failure e)
        | none ↦ update_found io times trimmed job s (find_job trimmed s.disk)
      ]

  unfoldable pub set_enabled_found :
      Io → Times → String → Bool → Service L → Option CronJob → Service L × Outcome
  set_enabled_found io times id enabled s none = (s, failure not_found)
  set_enabled_found io times id enabled s (some current) =
      elim (enable_refusal calendar enabled current) [
        | some outcome ↦ (s, outcome)
        | none ↦
            let next = toggled_job calendar times enabled current in
            reschedule io times id next next s
      ]

  -- `SetEnabled`
  unfoldable pub set_enabled : Io → Times → String → Bool → Service L → Service L × Outcome
  unfolding set_enabled_found
  set_enabled io times id enabled s =
      let trimmed = trim_space id in
      elim (toggle_refusal io trimmed) [
        | some e ↦ (s, failure e)
        | none ↦ set_enabled_found io times trimmed enabled s (find_job trimmed s.disk)
      ]
