-- ===== src/Bus/Machine.antt =====
-- The bus as a machine: what every run of its operations keeps.
use mathlib.Core.Path.{subst}
use mathlib.Core.Option.{some-injective}
use or3_intern.Base.{
  ℕ, ◌+◌, ◌≤◌, ◌≡◌, refl, ap, ◌∙◌, ◌==◌, String, Bool, true, false, not, ◌&&◌, ◌||◌, none, some,
  inl, inr, List, [], ◌∷◌, ◌++◌, length, drop, All, All-keep, All-append, length-append,
  length-drop, arith, Bool-cases, Option-cases, ltb, ltb→lt, if◌then◌else◌,
}
use or3_intern.Base.Int.{ℤ}
use or3_intern.Base.Table.{find}
use or3_intern.Bus.{
  Event, Subscriber, Bus, new_subscriber, deliver, close_subscriber, is_legacy, subscribe_named,
  new_bus, buffer_of, max_buffer_size, unsubscribe, publish_one, publish_to, publish, close_all,
  close, channel,
}

-- a subscriber of an open bus: open, and within its buffer
abbrev pub Fits : ℕ → ℕ × Subscriber → Type 0
Fits buffer p = (p.1.closed ≡ false) × (length p.1.waiting ≤ buffer)

pub record IsValid (b : Bus) : Type 0 where
  pub fit : All (Fits b.buffer) b.subscribers
  pub empty_when_closed : b.closed ≡ true → b.subscribers ≡ []
  pub gone_closed : All (λ (s : Subscriber). s.closed ≡ true) b.gone

deliver-fits :
    (buffer : ℕ) (ev : Event) (wait : Bool) (taken : ℕ) (s : Subscriber)
    → (s.closed ≡ false) × (length s.waiting ≤ buffer)
    → ((deliver buffer ev wait taken s).0.closed ≡ false)
      × (length (deliver buffer ev wait taken s).0.waiting ≤ buffer)
unfolding deliver
deliver-fits buffer ev wait taken s h =
    let left =
      (if wait && not (ltb (length s.waiting) buffer) then drop taken s.waiting else s.waiting) in
    let shorter : length left ≤ buffer = ground (arith, h.1, length-drop taken s.waiting) in
    elim (Bool-cases (ltb (length left) buffer)) [
      | inl room ↦
          rw (deliver, h.0, room)
            (refl, omega (arith, length-append left (ev ∷ []), ltb→lt _ _ room))
      | inr full ↦ rw (deliver, h.0, full) (refl, shorter)
    ]

publish_one-fits :
    (b : Bus) (ev : Event) (taken ch : ℕ) (s : Subscriber)
    → (s.closed ≡ false) × (length s.waiting ≤ b.buffer)
    → ((publish_one b ev taken ch s).0.closed ≡ false)
      × (length (publish_one b ev taken ch s).0.waiting ≤ b.buffer)
unfolding publish_one
publish_one-fits b ev taken ch s h =
    let d = deliver b.buffer ev (is_legacy b.legacy ch && b.legacy_used) taken s in
    let fits = deliver-fits b.buffer ev (is_legacy b.legacy ch && b.legacy_used) taken s h in
    elim (Bool-cases (d.1 || (is_legacy b.legacy ch && not b.legacy_used))) [
      | inl quiet ↦ rw (publish_one, quiet) fits
      | inr counted ↦ rw (publish_one, counted) fits
    ]

publish_to-Fits :
    (b : Bus) (ev : Event) (taken : ℕ) (subs : List (ℕ × Subscriber))
    → All (Fits b.buffer) subs
    → All (Fits b.buffer) (publish_to b ev taken subs).0
unfolding publish_to
publish_to-Fits b ev taken [] h = tt
publish_to-Fits b ev taken ((ch, s) ∷ subs) h =
    (publish_one-fits b ev taken ch s h.0, publish_to-Fits b ev taken subs h.1)

-- a bus that is not closed may hold any subscribers that fit
opened-IsValid :
    (b : Bus)
    → b.closed ≡ false
    → All (Fits b.buffer) b.subscribers
    → All (λ (s : Subscriber). s.closed ≡ true) b.gone
    → IsValid b
opened-IsValid b is_open fit gone = record {
  fit = fit;
  empty_when_closed = λ h. absurd (cc (is_open, h));
  gone_closed = gone;
}

-- a Boolean choice between two buses and results
choice-IsValid :
    {X : Type 0} (c : Bool) (x y : Bus × X)
    → (c ≡ true → IsValid x.0)
    → (c ≡ false → IsValid y.0)
    → IsValid (if c then x else y).0
choice-IsValid true x y h k = h refl
choice-IsValid false x y h k = k refl

publish-IsValid : (ev : Event) (taken : ℕ) (b : Bus) → IsValid b → IsValid (publish ev taken b).0
unfolding publish
publish-IsValid ev taken b v =
    let subs = publish_to b ev taken b.subscribers in
    choice-IsValid b.closed (b, false) (record b { subscribers = subs.0 }, subs.1) (λ e. v)
      (λ e.
        opened-IsValid (record b { subscribers = subs.0 }) e
          (publish_to-Fits b ev taken b.subscribers v.fit) v.gone_closed)

close_subscriber-closed : (s : Subscriber) → (close_subscriber s).closed ≡ true
unfolding close_subscriber
close_subscriber-closed s = ground arith

close_all-closed :
    (subs : List (ℕ × Subscriber)) → All (λ (s : Subscriber). s.closed ≡ true) (close_all subs)
unfolding close_all
close_all-closed [] = tt
close_all-closed ((ch, s) ∷ subs) = (close_subscriber-closed s, close_all-closed subs)

close-IsValid : (b : Bus) → IsValid b → IsValid (close b)
unfolding close
close-IsValid b v = go b.closed
  where
    go :
        (closed : Bool)
        → IsValid (
            if closed then b else record b {
              closed = true;
              subscribers = [];
              gone = close_all b.subscribers ++ b.gone;
            })
    go true = v
    go false = record {
      fit = tt;
      empty_when_closed = λ h. refl;
      gone_closed =
          All-append (λ (s : Subscriber). s.closed ≡ true) (close_all b.subscribers) b.gone
            (close_all-closed b.subscribers) v.gone_closed;
    }

new_subscriber-Fits :
    (name : String) (b : Bus)
    → IsValid b
    → All (Fits b.buffer) ((b.next, new_subscriber name) ∷ b.subscribers)
unfolding new_subscriber
new_subscriber-Fits name b v = ((refl, omega arith), v.fit)

subscribe_named-IsValid : (name : String) (b : Bus) → IsValid b → IsValid (subscribe_named name b).0
unfolding subscribe_named
subscribe_named-IsValid name b v =
    let b' : Bus = record b {
      subscribers = (b.next, new_subscriber name) ∷ b.subscribers;
      next = b.next + 1;
    } in
    choice-IsValid b.closed (b, none) (b', some b.next) (λ e. v)
      (λ e. opened-IsValid b' e (new_subscriber-Fits name b v) v.gone_closed)

unsubscribe-IsValid : (ch : ℕ) (b : Bus) → IsValid b → IsValid (unsubscribe ch b)
unfolding unsubscribe
unsubscribe-IsValid ch b v = elim (Option-cases (find ch b.subscribers)) [
  | inl missing ↦ rw (unsubscribe, missing) v
  | inr (s, found) ↦
      rw (unsubscribe, found)
        (record {
          fit = All-keep (Fits b.buffer) (λ p. not (p.0 == ch)) b.subscribers v.fit;
          empty_when_closed = λ h. rw (v.empty_when_closed h) refl;
          gone_closed = (close_subscriber-closed s, v.gone_closed);
        })
]

channel-IsValid : (b : Bus) → IsValid b → IsValid (channel b).0
unfolding channel
channel-IsValid b v = elim (Option-cases b.legacy) [
  | inr (l, there) ↦
      unfold channel in
      rw there (record {
        fit = v.fit;
        empty_when_closed = v.empty_when_closed;
        gone_closed = v.gone_closed;
      })
  | inl missing ↦
      let s = record (new_subscriber "legacy-worker-queue") { closed = true } in
      let shut : Bus = record b { legacy = some b.next; next = b.next + 1; gone = s ∷ b.gone } in
      let opened : Bus = record b {
        legacy = some b.next;
        next = b.next + 1;
        legacy_used = true;
        subscribers = (b.next, new_subscriber "legacy-worker-queue") ∷ b.subscribers;
      } in
      let chosen =
        choice-IsValid b.closed (shut, b.next) (opened, b.next)
          (λ e. record {
            fit = v.fit;
            empty_when_closed = v.empty_when_closed;
            gone_closed = (refl, v.gone_closed);
          })
          (λ e.
            opened-IsValid opened e (new_subscriber-Fits "legacy-worker-queue" b v)
              v.gone_closed) in
      rw (channel, missing) chosen
]

-- a receiver takes the next event out of its channel
unfoldable pub receive_from : ℕ → List (ℕ × Subscriber) → List (ℕ × Subscriber)
receive_from ch [] = []
receive_from ch ((j, s) ∷ subs) =
    (j, if j == ch then record s { waiting = drop 1 s.waiting } else s) ∷ receive_from ch subs

receive_from-Fits :
    (buffer ch : ℕ) (subs : List (ℕ × Subscriber))
    → All (Fits buffer) subs
    → All (Fits buffer) (receive_from ch subs)
unfolding receive_from
receive_from-Fits buffer ch [] h = tt
receive_from-Fits buffer ch ((j, s) ∷ subs) h = (
  (ground (arith, h.0.0), ground (arith, h.0.1, length-drop 1 s.waiting)),
  receive_from-Fits buffer ch subs h.1,
)

new_bus-IsValid : (buffer : ℤ) (b : Bus) → new_bus buffer ≡ some b → IsValid b
unfolding new_bus new_subscriber
new_bus-IsValid buffer b made = elim (Bool-cases (ltb max_buffer_size (buffer_of buffer))) [
  | inl large ↦ absurd (cc (rw (new_bus, large) at made))
  | inr fits ↦ subst IsValid (some-injective _ b (rw (new_bus, fits) at made)) (record {
    fit = ((refl, omega arith), tt);
    empty_when_closed = λ h. absurd (cc);
    gone_closed = tt;
  })
]

pub data Reach (start : Bus) : Bus → Type 0 where
  here : Reach start start
  subscribes : {b : Bus} → Reach start b → (name : String) → Reach start (subscribe_named name b).0
  unsubscribes : {b : Bus} → Reach start b → (ch : ℕ) → Reach start (unsubscribe ch b)
  publishes :
      {b : Bus} → Reach start b → (ev : Event) (taken : ℕ) → Reach start (publish ev taken b).0
  closes : {b : Bus} → Reach start b → Reach start (close b)
  channels : {b : Bus} → Reach start b → Reach start (channel b).0
  receives :
      {b : Bus}
      → Reach start b
      → (ch : ℕ) → Reach start (record b { subscribers = receive_from ch b.subscribers })

-- Whatever is done to a new bus and in whatever order, its subscribers are open and hold no more events than the
-- buffer, a closed bus has none, and the channels of all who left are closed.
pub Reach-IsValid :
    (buffer : ℤ) {start b : Bus} → new_bus buffer ≡ some start → Reach start b → IsValid b
Reach-IsValid buffer {start = start} made here = new_bus-IsValid buffer start made
Reach-IsValid buffer made (subscribes run name) =
    subscribe_named-IsValid name _ (Reach-IsValid buffer made run)
Reach-IsValid buffer made (unsubscribes run ch) =
    unsubscribe-IsValid ch _ (Reach-IsValid buffer made run)
Reach-IsValid buffer made (publishes run ev taken) =
    publish-IsValid ev taken _ (Reach-IsValid buffer made run)
Reach-IsValid buffer made (closes run) = close-IsValid _ (Reach-IsValid buffer made run)
Reach-IsValid buffer made (channels run) = channel-IsValid _ (Reach-IsValid buffer made run)
Reach-IsValid buffer made (receives {b = b} run ch) =
    let v = Reach-IsValid buffer made run in
    record {
      fit = receive_from-Fits b.buffer ch b.subscribers v.fit;
      empty_when_closed =
          λ h. ap (receive_from ch) (v.empty_when_closed h) ∙ unfold receive_from in refl;
      gone_closed = v.gone_closed;
    }
