-- ===== src/Cron/Arming.antt =====
-- Putting a job into the schedule (`armJobLocked` of internal/cron/cron.go) keeps what holds of the
-- service, if the job is enabled in the store.
use or3_intern.Base.{
  ◌⊎◌, inl, inr, Bool-cases, ℕ, ◌==◌, ==_iff, ◌≡◌, refl, ap, sym, ◌∙◌, Bool, true, false, String,
  str_eq, eq_iff, Option, none, some, List, arith, if◌then◌else◌,
}
use or3_intern.Base.Int.{ℤ, pos, ltb_ℤ, quotient}
use or3_intern.Base.Assoc.{lookup, insert, lookup-insert}
use or3_intern.Base.Table.{find}
use or3_intern.Cron.Types.{CronJob, Calendar}
use or3_intern.Cron.Clocks.{CronLibrary, Spec, after_func}
use or3_intern.Cron.Service.{
  Service, unarm, add_timer, add_entry, add_every, register, is_armable, arm_kind, arm_with,
  arm_from, arm, times_million, cron_spec,
}
use or3_intern.Cron.Sound.{
  Sound, Unknown, is_enabled, registered, unarm-Sound, unarm-Unknown, disk-unarm,
}

-- a fresh timer or entry beside those that a map knows
added :
    (id j : String) (h x : ℕ) (m : List (String × ℕ)) (live : Option String)
    → lookup id m ≡ none
    → (if h == x then some id else live) ≡ some j
    → (live ≡ some j → lookup j m ≡ some x)
    → lookup j (insert id h m) ≡ some x
added id j h x m live known e owned =
    ground (arith, lookup-insert id j h m, eq_iff id j, ==_iff h x, owned)

-- a value of a map with one more key
known_before :
    (id j : String) (h x : ℕ) (m : List (String × ℕ))
    → lookup j (insert id h m) ≡ some x
    → (str_eq id j ≡ true) ⊎ (lookup j m ≡ some x)
known_before id j h x m e = elim (Bool-cases (str_eq id j)) [
  | inl same ↦ inl same
  | inr differs ↦ inr (ground (arith, lookup-insert id j h m))
]

module _ {L : CronLibrary} where
  Sound-if : (b : Bool) (s t : Service L) → Sound s → Sound t → Sound (if b then s else t)
  Sound-if true s t v w = v
  Sound-if false s t v w = w

  module _ (id : String) (s : Service L) (c : L.Scheduler) (running : s.c ≡ some c)
      (unknown : Unknown id s) (enabled : is_enabled id s.disk ≡ true) (v : Sound s) where
    enabled_at : (j : String) → str_eq id j ≡ true → is_enabled j s.disk ≡ true
    enabled_at j same = cc ((eq_iff id j).0 same)

    add_timer-Sound : Sound (add_timer id s)
    unfolding add_timer after_func find
    add_timer-Sound = record {
      owned = v.owned;
      timed = λ x j e.
          added id j s.clock.next x s.timers (find x s.clock.pending) unknown.no_timer e
            (v.timed x j);
      enabled_entry = v.enabled_entry;
      enabled_timer = λ j x e. elim (known_before id j s.clock.next x s.timers e) [
        | inl same ↦ enabled_at j same
        | inr old ↦ v.enabled_timer j x old
      ];
      alone = λ j e x p q. elim (known_before id j s.clock.next x s.timers q) [
        | inl same ↦ absurd (cc ((eq_iff id j).0 same, unknown.no_entry))
        | inr old ↦ v.alone j e x p old
      ];
      idle = λ e. absurd (cc);
      distinct = v.distinct;
    }

    register-Sound :
        (spec : Spec) (result : Option (ℕ × L.Scheduler))
        → L.add_func c spec id ≡ result
        → Sound (register id s result)
    unfolding register registered
    register-Sound spec none e = v
    register-Sound spec (some (h, after)) is = record {
      owned = λ x j e.
          added id j h x s.entries (registered L s.c x) unknown.no_entry
            (rw running (sym (L.entry-add_func c spec id h after x is) ∙ e)) (v.owned x j);
      timed = v.timed;
      enabled_entry = λ j x e. elim (known_before id j h x s.entries e) [
        | inl same ↦ enabled_at j same
        | inr old ↦ v.enabled_entry j x old
      ];
      enabled_timer = v.enabled_timer;
      alone = λ j e x p q. elim (known_before id j h e s.entries p) [
        | inl same ↦ absurd (cc ((eq_iff id j).0 same, unknown.no_timer))
        | inr old ↦ v.alone j e x old q
      ];
      idle = λ e. absurd (cc);
      distinct = v.distinct;
    }

    add_entry-Sound : (spec : Spec) → Sound (add_entry spec id s c)
    unfolding add_entry
    add_entry-Sound spec = register-Sound spec (L.add_func c spec id) refl

    add_every-Sound : (sec : ℤ) → Sound (add_every sec id s c)
    unfolding add_every
    add_every-Sound sec = Sound-if _ _ _ (add_entry-Sound _) v

  arm_kind-Sound :
      (calendar : Calendar) (now : ℕ) (job : CronJob) (s : Service L) (c : L.Scheduler)
      → s.c ≡ some c
      → Unknown job.id s
      → is_enabled job.id s.disk ≡ true
      → Sound s
      → Sound (arm_kind calendar now job s c)
  unfolding arm_kind
  arm_kind-Sound calendar now job s c running unknown enabled v =
      Sound-if (str_eq job.schedule.kind "at") _ _
        (Sound-if (ltb_ℤ (pos now) (times_million job.schedule.at_ms)) _ _
          (add_timer-Sound job.id s c running unknown enabled v) v)
        (Sound-if (str_eq job.schedule.kind "every") _ _
          (add_every-Sound job.id s c running unknown enabled v
            (quotient job.schedule.every_ms 1000))
          (Sound-if (str_eq job.schedule.kind "cron") _ _
            (add_entry-Sound job.id s c running unknown enabled v (cron_spec calendar job.schedule))
            v))

  arm_with-Sound :
      (calendar : Calendar) (now : ℕ) (job : CronJob) (s : Service L) (o : Option L.Scheduler)
      → s.c ≡ o
      → Unknown job.id s
      → (job.enabled ≡ true → is_enabled job.id s.disk ≡ true)
      → Sound s
      → Sound (arm_with calendar now job s o)
  unfolding arm_with is_armable
  arm_with-Sound calendar now job s none running unknown enabled v = v
  arm_with-Sound calendar now job s (some c) running unknown enabled v =
      elim (Bool-cases job.enabled) [
        | inl on ↦
            Sound-if _ _ _ (arm_kind-Sound calendar now job s c running unknown (enabled on) v) v
        | inr off ↦ rw off v
      ]

  arm_from-Sound :
      (calendar : Calendar) (now : ℕ) (job : CronJob) (s : Service L) (o : Option L.Scheduler)
      → (job.enabled ≡ true → is_enabled job.id s.disk ≡ true)
      → Sound s
      → Sound (arm_from calendar now job s o)
  unfolding arm_from
  arm_from-Sound calendar now job s none enabled v = v
  arm_from-Sound calendar now job s (some _) enabled v =
      arm_with-Sound calendar now job (unarm job.id s) _ refl (unarm-Unknown job.id s v)
        (λ on. ap (is_enabled job.id) (disk-unarm job.id s) ∙ enabled on) (unarm-Sound job.id s v)

  pub arm-Sound :
      (calendar : Calendar) (now : ℕ) (job : CronJob) (s : Service L)
      → (job.enabled ≡ true → is_enabled job.id s.disk ≡ true)
      → Sound s
      → Sound (arm calendar now job s)
  unfolding arm
  arm-Sound calendar now job s enabled v = arm_from-Sound calendar now job s s.c enabled v
