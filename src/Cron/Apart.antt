-- ===== src/Cron/Apart.antt =====
-- Putting one job into the schedule of internal/cron/cron.go leaves the entries and timers of the others.
use or3_intern.Base.{
  inl, inr, Bool-cases, ℕ, ◌<◌, ◌==◌, ==_iff, ◌≡◌, refl, sym, false, String, str_eq, eq_iff, Option,
  none, some, arith,
}
use or3_intern.Base.Assoc.{lookup, lookup-insert, lookup-delete}
use or3_intern.Base.Table.{find}
use or3_intern.Cron.Types.{CronJob, Calendar}
use or3_intern.Cron.Clocks.{CronLibrary, Spec, stop_timer, find-without, after_func}
use or3_intern.Cron.Service.{Service, unarm, unarm_entry, unarm_timer, add_timer, register, arm}
use or3_intern.Cron.Sound.{registered}
use or3_intern.Cron.ArmKeeps.{arm-keeps}
use or3_intern.Cron.Machine.{Registration, entry, timer}

-- What the maps know under an id is that job's own.
pub record Apart {L : CronLibrary} (s : Service L) : Type 0 where
  pub entry_own : (k : String) (e : ℕ) → lookup k s.entries ≡ some e → registered L s.c e ≡ some k
  pub timer_own :
      (k : String) (h : ℕ) (m : String)
      → lookup k s.timers ≡ some h
      → find h s.clock.pending ≡ some m
      → m ≡ k
  pub timer_below : (k : String) (h : ℕ) → lookup k s.timers ≡ some h → h < s.clock.next

-- a registration that is live, and older than the next
abbrev pub Has : {L : CronLibrary} → Registration → String → Service L → Type 0
Has {L} (entry e) id s = registered L s.c e ≡ some id
Has (timer h) id s = (find h s.clock.pending ≡ some id) × (h < s.clock.next)

module _ {L : CronLibrary} where
  unarm_timer-Apart :
      (id : String) (o : Option ℕ) (s : Service L) → Apart s → Apart (unarm_timer id o s)
  unfolding unarm_timer stop_timer
  unarm_timer-Apart id none s v = v
  unarm_timer-Apart id (some h) s v = record {
    entry_own = v.entry_own;
    timer_own = λ k x m e live.
        v.timer_own k x m (ground (arith, lookup-delete id k s.timers))
          (ground (arith, find-without h x s.clock.pending));
    timer_below = λ k x e. v.timer_below k x (ground (arith, lookup-delete id k s.timers));
  }

  unarm_entry-Apart :
      (id : String) (c : Option L.Scheduler) (o : Option ℕ) (s : Service L)
      → s.c ≡ c
      → lookup id s.entries ≡ o
      → Apart s
      → Apart (unarm_entry id c o s)
  unfolding unarm_entry registered
  unarm_entry-Apart id none o s is known v = v
  unarm_entry-Apart id (some c) none s is known v = v
  unarm_entry-Apart id (some c) (some h) s is known v = record {
    entry_own = λ k e p.
        let before : registered L s.c e ≡ some k =
          v.entry_own k e (ground (arith, lookup-delete id k s.entries)) in
        let own : registered L s.c h ≡ some id = v.entry_own id h known in
        ground (
          arith,
          L.entry-remove c h e,
          rw is at before,
          rw is at own,
          ==_iff h e,
          lookup-delete id k s.entries,
          eq_iff id k,
        );
    timer_own = v.timer_own;
    timer_below = v.timer_below;
  }

  unarm_timer-Has :
      (a : Registration) (j id : String) (o : Option ℕ) (s : Service L)
      → str_eq id j ≡ false
      → lookup id s.timers ≡ o
      → Apart s
      → Has a j s
      → Has a j (unarm_timer id o s)
  unfolding unarm_timer stop_timer
  unarm_timer-Has a j id none s differs known v has = has
  unarm_timer-Has (entry e) j id (some h) s differs known v has = has
  unarm_timer-Has (timer x) j id (some h) s differs known v has = (
    elim (Bool-cases (h == x)) [
      | inl same ↦
          let mine : find h s.clock.pending ≡ some j = cc (has.0, (==_iff h x).0 same) in
          absurd (cc ((eq_iff id j).1 (sym (v.timer_own id h j known mine))))
      | inr other ↦ ground (arith, find-without h x s.clock.pending)
    ],
    has.1,
  )

  unarm_entry-Has :
      (a : Registration) (j id : String) (c : Option L.Scheduler) (o : Option ℕ) (s : Service L)
      → str_eq id j ≡ false
      → s.c ≡ c
      → lookup id s.entries ≡ o
      → Apart s
      → Has a j s
      → Has a j (unarm_entry id c o s)
  unfolding unarm_entry registered
  unarm_entry-Has a j id none o s differs is known v has = has
  unarm_entry-Has a j id (some c) none s differs is known v has = has
  unarm_entry-Has (entry x) j id (some c) (some h) s differs is known v has =
      let own : registered L s.c h ≡ some id = v.entry_own id h known in
      ground (arith, L.entry-remove c h x, rw is at own, rw is at has, ==_iff h x, eq_iff id j)
  unarm_entry-Has (timer x) j id (some c) (some h) s differs is known v has = has

  add_timer-Apart : (id : String) (s : Service L) → Apart s → Apart (add_timer id s)
  unfolding add_timer after_func find
  add_timer-Apart id s v = record {
    entry_own = v.entry_own;
    timer_own = λ k h m e live. ground (
      arith,
      lookup-insert id k s.clock.next s.timers,
      v.timer_own k h m,
      v.timer_below k h,
      ==_iff s.clock.next h,
      eq_iff id k,
    );
    timer_below =
        λ k h e. ground (arith, lookup-insert id k s.clock.next s.timers, v.timer_below k h);
  }

  add_timer-Has :
      (a : Registration) (j id : String) (s : Service L) → Has a j s → Has a j (add_timer id s)
  unfolding add_timer after_func find
  add_timer-Has (entry e) j id s has = has
  add_timer-Has (timer h) j id s has =
      (ground (arith, has.0, has.1, ==_iff s.clock.next h), omega (arith, has.1))

  module _ (id : String) (s : Service L) (c : L.Scheduler) (spec : Spec) (is : s.c ≡ some c) where
    register-Apart :
        (o : Option (ℕ × L.Scheduler))
        → L.add_func c spec id ≡ o
        → Apart s
        → Apart (register id s o)
    unfolding register registered
    register-Apart none added v = v
    register-Apart (some (x, after)) added v = record {
      entry_own = λ k e p. elim (Bool-cases (str_eq id k)) [
        | inl same ↦ ground (
          arith,
          lookup-insert id k x s.entries,
          L.entry-add_func c spec id x after e added,
          eq_iff id k,
          ==_iff x e,
        )
        | inr differs ↦
            let before : registered L s.c e ≡ some k =
              v.entry_own k e (ground (arith, lookup-insert id k x s.entries)) in
            ground (
              arith,
              L.entry-add_func c spec id x after e added,
              rw is at before,
              L.entry_fresh c spec id x after added,
              ==_iff x e,
            )
      ];
      timer_own = v.timer_own;
      timer_below = v.timer_below;
    }

    register-Has :
        (a : Registration) (j : String) (o : Option (ℕ × L.Scheduler))
        → L.add_func c spec id ≡ o
        → Has a j s
        → Has a j (register id s o)
    unfolding register registered
    register-Has a j none added has = has
    register-Has (entry e) j (some (x, after)) added has = ground (
      arith,
      L.entry-add_func c spec id x after e added,
      rw is at has,
      L.entry_fresh c spec id x after added,
      ==_iff x e,
    )
    register-Has (timer h) j (some (x, after)) added has = has

  unarm-Apart : (id : String) (s : Service L) → Apart s → Apart (unarm id s)
  unfolding unarm
  unarm-Apart id s v =
      unarm_timer-Apart id _ _ (unarm_entry-Apart id s.c (lookup id s.entries) s refl refl v)

  unarm-Has :
      (a : Registration) (j id : String) (s : Service L)
      → str_eq id j ≡ false
      → Apart s
      → Has a j s
      → Has a j (unarm id s)
  unfolding unarm
  unarm-Has a j id s differs v has =
      unarm_timer-Has a j id _ _ differs refl
        (unarm_entry-Apart id s.c (lookup id s.entries) s refl refl v)
        (unarm_entry-Has a j id s.c (lookup id s.entries) s differs refl refl v has)

  pub arm-Apart :
      (calendar : Calendar) (now : ℕ) (job : CronJob) (s : Service L)
      → Apart s
      → Apart (arm calendar now job s)
  arm-Apart calendar now job s v =
      arm-keeps (λ (t : Service L). Apart t) job (unarm-Apart job.id) (add_timer-Apart job.id)
        (λ t c spec o is added w. register-Apart job.id t c spec is o added w) calendar now s v

  -- `armJobLocked` of a job leaves the live registrations of the others.
  pub arm-Has :
      (a : Registration) (j : String) (calendar : Calendar) (now : ℕ) (job : CronJob)
      (s : Service L)
      → str_eq job.id j ≡ false
      → Apart s
      → Has a j s
      → Has a j (arm calendar now job s)
  arm-Has a j calendar now job s differs v has =
      (arm-keeps (λ (t : Service L). Apart t × Has a j t) job
        (λ t w. (unarm-Apart job.id t w.0, unarm-Has a j job.id t differs w.0 w.1))
        (λ t w. (add_timer-Apart job.id t w.0, add_timer-Has a j job.id t w.1))
        (λ t c spec o is added w. (
          register-Apart job.id t c spec is o added w.0,
          register-Has job.id t c spec is a j o added w.1,
        ))
        calendar now s (v, has)).1
