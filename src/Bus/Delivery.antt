-- ===== src/Bus/Delivery.antt =====
-- Where the events of a run of `Publish` calls go.
use mathlib.Core.Option.{some-injective}
use mathlib.Core.List.{append-nil, append_assoc}
use or3_intern.Base.{
  ℕ, zero, suc, ◌+◌, ◌%◌, ◌^◌, ◌<◌, ◌≡◌, refl, sym, ap, ◌∙◌, ◌==◌, ==_iff, Bool, true, false, some,
  inl, inr, List, [], ◌∷◌, ◌++◌, length, take, length-append, arith, Bool-cases, if◌then◌else◌,
}
use or3_intern.Base.Table.{find}
use or3_intern.Bus.{Event, Subscriber, Bus, deliver, is_legacy, publish_one, publish_to, publish}

-- a run of `Publish` calls, in which no receiver takes anything
unfoldable pub publish_all : List Event → Bus → Bus
publish_all [] b = b
publish_all (ev ∷ evs) b = publish_all evs (publish ev 0 b).0

find-publish_to :
    (b : Bus) (ev : Event) (taken ch : ℕ) (subs : List (ℕ × Subscriber)) (s : Subscriber)
    → find ch subs ≡ some s
    → find ch (publish_to b ev taken subs).0 ≡ some (publish_one b ev taken ch s).0
unfolding find publish_to
find-publish_to b ev taken ch [] s e = absurd (cc)
find-publish_to b ev taken ch ((j, x) ∷ subs) s e = elim (Bool-cases (j == ch)) [
  | inl same ↦
      let here : x ≡ s = some-injective x s (rw same at e) in
      rw same (
        ap (λ k. some (publish_one b ev taken k x).0) ((==_iff j ch).0 same)
        ∙ ap (λ y. some (publish_one b ev taken ch y).0) here)
  | inr differs ↦ rw differs (find-publish_to b ev taken ch subs s (rw differs at e))
]

-- an optional subscriber with room is given the event; a full one counts it as dropped
given : Event → Subscriber → Subscriber
given ev s = record s { waiting = s.waiting ++ ev ∷ [] }

missed : Subscriber → Subscriber
missed s = record s { dropped = (s.dropped + 1) % 2 ^ 64 }

publish_one-given :
    (b : Bus) (ev : Event) (ch : ℕ) (s : Subscriber)
    → is_legacy b.legacy ch ≡ false
    → s.closed ≡ false
    → length s.waiting < b.buffer
    → (publish_one b ev 0 ch s).0 ≡ given ev s
unfolding publish_one deliver given
publish_one-given b ev ch s optional live room = ground arith

publish_one-missed :
    (b : Bus) (ev : Event) (ch : ℕ) (s : Subscriber)
    → is_legacy b.legacy ch ≡ false
    → s.closed ≡ false
    → length s.waiting ≡ b.buffer
    → (publish_one b ev 0 ch s).0 ≡ missed s
unfolding publish_one deliver missed
publish_one-missed b ev ch s optional live full = ground arith

find-publish :
    (b : Bus) (ev : Event) (ch : ℕ) (s : Subscriber)
    → b.closed ≡ false
    → find ch b.subscribers ≡ some s
    → find ch (publish ev 0 b).0.subscribers ≡ some (publish_one b ev 0 ch s).0
unfolding publish
find-publish b ev ch s is_open found =
    ap (λ c. find ch (after c).0.subscribers) is_open
    ∙ find-publish_to b ev 0 ch b.subscribers s found
  where
    after : Bool → Bus × Bool
    after c = if c then (b, false) else (
      record b { subscribers = (publish_to b ev 0 b.subscribers).0 },
      (publish_to b ev 0 b.subscribers).1,
    )

-- a publication on an open bus changes its subscribers alone
record SameBus (b b' : Bus) : Type 0 where
  still_open : b'.closed ≡ false
  same_buffer : b'.buffer ≡ b.buffer
  same_legacy : b'.legacy ≡ b.legacy

publish-SameBus : (ev : Event) (b : Bus) → b.closed ≡ false → SameBus b (publish ev 0 b).0
unfolding publish
publish-SameBus ev b is_open = go b.closed refl
  where
    go :
        (c : Bool)
        → c ≡ b.closed
        → SameBus b
            (if◌then◌else◌ {A = Bus × Bool} c
              (b, false)
              (
                record b { subscribers = (publish_to b ev 0 b.subscribers).0 },
                (publish_to b ev 0 b.subscribers).1,
              )).0
    go true e = absurd (cc (e, is_open))
    go false e = record { still_open = is_open; same_buffer = refl; same_legacy = refl }

take_empty : (n : ℕ) → take {A = Event} n [] ≡ []
take_empty zero = refl
take_empty (suc n) = refl

-- what a subscriber `s` with `room` for more has become after the events `evs`
pub record Accounted (room : ℕ) (evs : List Event) (s s' : Subscriber) : Type 0 where
  pub queued : s'.waiting ≡ s.waiting ++ take room evs
  pub counted : s'.dropped + length (take room evs) ≡ s.dropped + length evs

-- While nobody takes anything out of its channel, an optional subscriber of an open bus has, after a run of
-- events, the first ones that its buffer had room for, in their order behind what was waiting, and
-- the others counted in its number of dropped events, as long as that number stays below 2 ^ 64.
pub publish_all-Accounted :
    (evs : List Event) (b : Bus) (ch room : ℕ) (s : Subscriber)
    → b.closed ≡ false
    → is_legacy b.legacy ch ≡ false
    → find ch b.subscribers ≡ some s
    → s.closed ≡ false
    → length s.waiting + room ≡ b.buffer
    → s.dropped + length evs < 2 ^ 64
    → (s' : Subscriber) × (find ch (publish_all evs b).subscribers ≡ some s')
      × Accounted room evs s s'
unfolding publish_all given missed
publish_all-Accounted [] b ch room s is_open optional found live fills fits =
    let none_taken = take_empty room in
    (
      s,
      found,
      record {
        queued = sym (ap (λ evs. s.waiting ++ evs) none_taken ∙ append-nil s.waiting);
        counted = ap (λ evs. s.dropped + length evs) none_taken;
      },
    )
publish_all-Accounted (ev ∷ evs) b ch zero s is_open optional found live fills fits =
    let same = publish-SameBus ev b is_open in
    let there =
      find-publish b ev ch s is_open found
      ∙ ap some (publish_one-missed b ev ch s optional live (omega (arith, fills))) in
    let (s', found', a) =
      publish_all-Accounted evs (publish ev 0 b).0 ch zero (missed s) same.still_open
        (ap (λ l. is_legacy l ch) same.same_legacy ∙ optional) there (live)
        (omega (arith, fills, same.same_buffer)) (omega (arith, fits)) in
    (s', found', record { queued = a.queued; counted = omega (arith, a.counted, fits) })
publish_all-Accounted (ev ∷ evs) b ch (suc room) s is_open optional found live fills fits =
    let same = publish-SameBus ev b is_open in
    let there =
      find-publish b ev ch s is_open found
      ∙ ap some (publish_one-given b ev ch s optional live (omega (arith, fills))) in
    let (s', found', a) =
      publish_all-Accounted evs (publish ev 0 b).0 ch room (given ev s) same.still_open
        (ap (λ l. is_legacy l ch) same.same_legacy ∙ optional) there (live)
        (omega (arith, fills, same.same_buffer, length-append s.waiting (ev ∷ [])))
        (omega (arith, fits)) in
    (
      s',
      found',
      record {
        queued = a.queued ∙ append_assoc s.waiting (ev ∷ []) (take room evs);
        counted = omega (arith, a.counted);
      },
    )
