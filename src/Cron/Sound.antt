-- ===== src/Cron/Sound.antt =====
-- What holds of the service between operations, and that taking a job out of the schedule and putting it
-- in keep it.
use or3_intern.Base.{
  ℕ, ◌==◌, ==_iff, ◌≡◌, refl, ap, sym, ◌∙◌, Bool, true, false, String, eq_iff, eq_refl, Option,
  none, some, List, [], ◌∷◌, Distinct, arith, if◌then◌else◌,
}
use or3_intern.Base.Assoc.{lookup, delete, lookup-delete}
use or3_intern.Base.Table.{find}
use or3_intern.Cron.Types.{CronJob}
use or3_intern.Cron.Clocks.{CronLibrary, stop_timer, find-without}
use or3_intern.Cron.Service.{Service, find_job, unarm, unarm_entry, unarm_timer}

-- the stored job of an id is enabled
unfoldable pub is_enabled : String → List CronJob → Bool
is_enabled id jobs = elim (find_job id jobs) [ none ↦ false | some j ↦ j.enabled ]

abbrev pub job_ids : List CronJob → List String
job_ids [] = []
job_ids (j ∷ jobs) = j.id ∷ job_ids jobs

-- the job whose function the scheduler calls for an entry
unfoldable pub registered : (L : CronLibrary) → Option L.Scheduler → ℕ → Option String
registered L none e = none
registered L (some c) e = L.entry c e

-- The maps know every entry of the scheduler and every pending timer; whatever they know is of an
-- enabled job of the store, in one map only; they are empty while there is no scheduler.
pub record Sound {L : CronLibrary} (s : Service L) : Type 0 where
  pub owned : (e : ℕ) (id : String) → registered L s.c e ≡ some id → lookup id s.entries ≡ some e
  pub timed : (h : ℕ) (id : String) → find h s.clock.pending ≡ some id → lookup id s.timers ≡ some h
  pub enabled_entry :
      (id : String) (e : ℕ) → lookup id s.entries ≡ some e → is_enabled id s.disk ≡ true
  pub enabled_timer :
      (id : String) (h : ℕ) → lookup id s.timers ≡ some h → is_enabled id s.disk ≡ true
  pub alone :
      (id : String) (e h : ℕ) → lookup id s.entries ≡ some e → lookup id s.timers ≡ some h → ⊥
  pub idle : s.c ≡ none → (s.entries ≡ []) × (s.timers ≡ [])
  pub distinct : Distinct (job_ids s.disk)

-- the maps know nothing of a job
pub record Unknown {L : CronLibrary} (id : String) (s : Service L) : Type 0 where
  pub no_entry : lookup id s.entries ≡ none
  pub no_timer : lookup id s.timers ≡ none

-- What stopping a timer, or removing an entry, leaves is known to the map without its job.
kept :
    (id j : String) (h x : ℕ) (m : List (String × ℕ)) (live : Option String)
    → lookup id m ≡ some h
    → (if h == x then none else live) ≡ some j
    → (live ≡ some j → lookup j m ≡ some x)
    → lookup j (delete id m) ≡ some x
kept id j h x m live known e owned =
    ground (arith, lookup-delete id j m, eq_iff id j, ==_iff h x, owned)

lookup-delete_inv :
    (k j : String) (m : List (String × ℕ)) (v : ℕ)
    → lookup j (delete k m) ≡ some v
    → lookup j m ≡ some v
lookup-delete_inv k j m v e = ground (arith, lookup-delete k j m)

lookup-delete_same : (k : String) (m : List (String × ℕ)) → lookup k (delete k m) ≡ none
lookup-delete_same k m = ground (arith, lookup-delete k k m, eq_refl k)

lookup-delete-none :
    (k j : String) (m : List (String × ℕ)) → lookup j m ≡ none → lookup j (delete k m) ≡ none
lookup-delete-none k j m e = ground (arith, lookup-delete k j m)

delete-empty : (k : String) (m : List (String × ℕ)) → m ≡ [] → delete k m ≡ []
unfolding delete
delete-empty k m e = rw e refl

module _ {L : CronLibrary} where
  unarm_timer-Sound :
      (id : String) (o : Option ℕ) (s : Service L)
      → lookup id s.timers ≡ o
      → Sound s
      → Sound (unarm_timer id o s)
  unfolding unarm_timer stop_timer
  unarm_timer-Sound id none s known v = v
  unarm_timer-Sound id (some h) s known v = record {
    owned = v.owned;
    timed = λ x j e.
        kept id j h x s.timers (find x s.clock.pending) known
          (sym (find-without h x s.clock.pending) ∙ e) (v.timed x j);
    enabled_entry = v.enabled_entry;
    enabled_timer = λ j x e. v.enabled_timer j x (lookup-delete_inv id j s.timers x e);
    alone = λ j e x p q. v.alone j e x p (lookup-delete_inv id j s.timers x q);
    idle = λ e. ((v.idle e).0, delete-empty id s.timers (v.idle e).1);
    distinct = v.distinct;
  }

  unarm_entry-Sound :
      (id : String) (c : Option L.Scheduler) (o : Option ℕ) (s : Service L)
      → s.c ≡ c
      → lookup id s.entries ≡ o
      → Sound s
      → Sound (unarm_entry id c o s)
  unfolding unarm_entry registered
  unarm_entry-Sound id none o s running known v = v
  unarm_entry-Sound id (some c) none s running known v = v
  unarm_entry-Sound id (some c) (some h) s running known v = record {
    owned = λ x j e.
        kept id j h x s.entries (registered L s.c x) known
          (rw running (sym (L.entry-remove c h x) ∙ e)) (v.owned x j);
    timed = v.timed;
    enabled_entry = λ j x e. v.enabled_entry j x (lookup-delete_inv id j s.entries x e);
    enabled_timer = v.enabled_timer;
    alone = λ j e x p q. v.alone j e x (lookup-delete_inv id j s.entries e p) q;
    idle = λ e. absurd (cc);
    distinct = v.distinct;
  }

  no_entry-unarm_entry :
      (id : String) (c : Option L.Scheduler) (o : Option ℕ) (s : Service L)
      → s.c ≡ c
      → lookup id s.entries ≡ o
      → Sound s
      → lookup id (unarm_entry id c o s).entries ≡ none
  unfolding unarm_entry lookup
  no_entry-unarm_entry id none o s running known v = rw ((v.idle running).0) refl
  no_entry-unarm_entry id (some c) none s running known v = known
  no_entry-unarm_entry id (some c) (some h) s running known v = lookup-delete_same id s.entries

  no_timer-unarm_timer :
      (id : String) (o : Option ℕ) (s : Service L)
      → lookup id s.timers ≡ o
      → lookup id (unarm_timer id o s).timers ≡ none
  unfolding unarm_timer
  no_timer-unarm_timer id none s known = known
  no_timer-unarm_timer id (some h) s known = lookup-delete_same id s.timers

  entries-unarm_timer :
      (id : String) (o : Option ℕ) (s : Service L) → (unarm_timer id o s).entries ≡ s.entries
  unfolding unarm_timer
  entries-unarm_timer id none s = refl
  entries-unarm_timer id (some h) s = refl

  pub unarm-Sound : (id : String) (s : Service L) → Sound s → Sound (unarm id s)
  unfolding unarm
  unarm-Sound id s v =
      unarm_timer-Sound id _ _ refl (unarm_entry-Sound id s.c (lookup id s.entries) s refl refl v)

  -- After `unarmJobLocked` the maps know nothing of the job.
  pub unarm-Unknown : (id : String) (s : Service L) → Sound s → Unknown id (unarm id s)
  unfolding unarm
  unarm-Unknown id s v =
      let first : Service L = unarm_entry id s.c (lookup id s.entries) s in
      record {
        no_entry =
            ap (lookup id) (entries-unarm_timer id (lookup id first.timers) first)
            ∙ no_entry-unarm_entry id s.c (lookup id s.entries) s refl refl v;
        no_timer = no_timer-unarm_timer id (lookup id first.timers) first refl;
      }

  disk-unarm_entry :
      (id : String) (c : Option L.Scheduler) (o : Option ℕ) (s : Service L)
      → (unarm_entry id c o s).disk ≡ s.disk
  unfolding unarm_entry
  disk-unarm_entry id none o s = refl
  disk-unarm_entry id (some c) none s = refl
  disk-unarm_entry id (some c) (some h) s = refl

  disk-unarm_timer :
      (id : String) (o : Option ℕ) (s : Service L) → (unarm_timer id o s).disk ≡ s.disk
  unfolding unarm_timer
  disk-unarm_timer id none s = refl
  disk-unarm_timer id (some h) s = refl

  -- `unarmJobLocked` leaves the store.
  pub disk-unarm : (id : String) (s : Service L) → (unarm id s).disk ≡ s.disk
  unfolding unarm
  disk-unarm id s = disk-unarm_timer id _ _ ∙ disk-unarm_entry id s.c (lookup id s.entries) s
