-- ===== src/Examples/Jobs.antt =====
-- The registry's theorems at concrete inputs.
use or3_intern.Base.{◌+◌, ◌≡◌, refl, ◌≢◌, String, true, false, Option, none, some, [], ◌∷◌, arith}
use or3_intern.Base.Text.{str_ne}
use or3_intern.Base.Int.{pos}
use or3_intern.Base.Assoc.{lookup, insert}
use or3_intern.Jobs.Events.{text, EventData, insert_missing, text_at, clone_event_data}
use or3_intern.Jobs.Registry.{
  Entry, Registry, new_registry, register_with_id, cleanup, drop_stale, evict, snapshot_for_entry,
}
use or3_intern.Jobs.Publish.{
  publish, publish_entry, mark_terminal, unsubscribe, complete, fail, pause_for_approval, subscribe,
  offer_all, trim,
}
use or3_intern.Jobs.Steps.{Reach, here, next, register, emit, Reach-RegistryIsValid, Reach-no_panic}
use or3_intern.Jobs.Invariant.{RunsTo}
use or3_intern.Jobs.Upkeep.{RegistryIsValid}
use or3_intern.Jobs.Cleanup.{CleanedUp, cleanup-CleanedUp}
use or3_intern.Jobs.Heard.{event_of, heard, publish_all}
use or3_intern.Jobs.Life.{Ended, complete-Ended, Received, subscribe-Received}

-- data that encodes as it is
abbrev json : EventData → Option EventData
json d = some d

abbrev fresh : Registry
fresh = new_registry (pos 0) (pos 0)

-- one job, with one event
abbrev busy : Registry
busy = (publish json 2 "a" "delta" [] (register_with_id 1 "a" "chat" fresh).0).0

busy_run : Reach json fresh busy
busy_run =
    next (next here (register 1 "a" "chat" fresh))
      (emit 2 "a" "delta" [] (register_with_id 1 "a" "chat" fresh).0)

abbrev job : Entry
job = record {
  id = "a";
  kind = "chat";
  status = "queued";
  events = record { sequence = 1; kind = "delta"; payload = ("job_id", text "a") ∷ [] } ∷ [];
  subscribers = [];
  next_sub_id = 0;
  next_seq = 1;
  cancel = none;
  done_closed = false;
  terminal = false;
  created_at = 1;
  updated_at = 2;
}

job_found : lookup "a" busy.jobs ≡ some job
unfolding lookup insert publish publish_entry register_with_id cleanup drop_stale evict new_registry
    insert_missing text_at clone_event_data offer_all trim
job_found = refl

busy_valid : RegistryIsValid busy
busy_valid = Reach-RegistryIsValid (pos 0) (pos 0) busy_run

Reach-no_panic_example :
    (mark_terminal json 3 "a" "completed" busy ≢ none) × (unsubscribe "a" 1 busy ≢ none)
Reach-no_panic_example = Reach-no_panic (pos 0) (pos 0) 3 "a" "completed" 1 busy_run

abbrev over : Entry
over = record job { terminal = true }

-- a job that is over beside one that is not, in a registry of one place
abbrev crowded : Registry
crowded = record {
  jobs = ("b", over) ∷ ("a", job) ∷ [];
  retention = 100;
  max_tracked = 1;
  max_events = 256;
  released = [];
}

cleanup-CleanedUp_example : CleanedUp 5 crowded (cleanup 5 crowded)
cleanup-CleanedUp_example =
    cleanup-CleanedUp 5 crowded ((str_ne "b" "a" refl, tt), (tt, tt))
      (str_ne "b" "" refl, (str_ne "a" "" refl, tt))

complete-Ended_example :
    (r' : Registry) × (e' : Entry) × (complete json 3 4 "a" "" [] busy ≡ some (r', true))
    × (lookup "a" r'.jobs ≡ some e')
    × Ended busy.max_events job e' "completed"
        (event_of json "a" 2 "completion" (insert "status" (text "completed") []))
    × ((s m : String) (p : EventData)
        → (complete json 3 4 "a" s p r' ≡ some (r', false))
          × (fail json 3 4 "a" m p r' ≡ some (r', false))
          × (pause_for_approval json 3 4 "a" p r' ≡ some (r', false)))
complete-Ended_example = complete-Ended json 3 4 "a" "" [] busy job busy_valid job_found refl

subscribe-Received_example :
    RunsTo job.next_seq job.events
    × ((subscribe json "a" busy).1 ≡ some (snapshot_for_entry json job, some (job.next_sub_id + 1)))
    × Received "a" 1
        (heard json "a" 1 (("delta", []) ∷ ("done", []) ∷ []))
        (publish_all json 3 "a" (("delta", []) ∷ ("done", []) ∷ []) (subscribe json "a" busy).0)
subscribe-Received_example =
    subscribe-Received json 3 "a" busy job (("delta", []) ∷ ("done", []) ∷ []) busy_valid job_found
      refl (omega arith)
