-- ===== src/Jobs/Invariant.antt =====
-- What holds of every entry of the registry between two operations.
use or3_intern.Base.{
  ℕ, zero, suc, ◌+◌, ◌-◌, ◌≤◌, ◌<◌, ◌≡◌, refl, inl, inr, String, true, false, ◌&&◌, Option, some,
  List, [], ◌∷◌, ◌++◌, length, drop, All, ltb, leb, ◌==◌, if◌then◌else◌, arith, Bool-cases,
  length-append, length-drop,
}
use or3_intern.Jobs.Events.{EventData, Event, Channel, offer, close, close_all}
use or3_intern.Jobs.Registry.{Entry}
use or3_intern.Jobs.Publish.{trim, offer_all, publish_entry}

-- the events are numbered without a gap, and the last one by `n`
abbrev pub RunsTo : ℕ → List Event → Type 0
RunsTo n [] = Unit
RunsTo n (e ∷ es) = (e.sequence + length es ≡ n) × RunsTo n es

abbrev pub IsOpen : ℕ × Channel → Type 0
IsOpen s = s.1.closed ≡ false

-- how many of so many events are kept
abbrev pub kept_count : ℕ → ℕ → ℕ
kept_count max published =
    if max == 0 then published else if leb published max then published else max

pub record IsValid (max : ℕ) (e : Entry) : Type 0 where
  pub numbered : RunsTo e.next_seq e.events
  pub bounded : 0 < max → length e.events ≤ max
  pub kept : length e.events ≡ kept_count max e.next_seq
  pub done_when_terminal : e.done_closed ≡ e.terminal
  pub alone_when_terminal : e.terminal ≡ true → e.subscribers ≡ []
  pub channels_open : All IsOpen e.subscribers
  pub subs_numbered : All (λ s. s.0 ≤ e.next_sub_id) e.subscribers

pub RunsTo-append :
    (n : ℕ) (es : List Event) (ev : Event)
    → RunsTo n es
    → ev.sequence ≡ n + 1
    → RunsTo (n + 1) (es ++ ev ∷ [])
RunsTo-append n [] ev h e = (omega arith, tt)
RunsTo-append n (x ∷ es) ev h e =
    (omega (arith, length-append es (ev ∷ [])), RunsTo-append n es ev h.1 e)

RunsTo-drop : (n k : ℕ) (es : List Event) → RunsTo n es → RunsTo n (drop k es)
RunsTo-drop n zero es h = h
RunsTo-drop n (suc k) [] h = tt
RunsTo-drop n (suc k) (x ∷ es) h = RunsTo-drop n k es h.1

RunsTo-trim : (n max : ℕ) (es : List Event) → RunsTo n es → RunsTo n (trim max es)
unfolding trim
RunsTo-trim n max es h = elim (Bool-cases (ltb 0 max && ltb max (length es))) [
  | inl long ↦ rw long (RunsTo-drop n (length es - max) es h)
  | inr short ↦ rw short h
]

length-trim : (max : ℕ) (es : List Event) → 0 < max → length (trim max es) ≤ max
unfolding trim
length-trim max es h = ground (arith, length-drop (length es - max) es)

trim_kept :
    (max n : ℕ) (es : List Event) (ev : Event)
    → length es ≡ kept_count max n
    → length (trim max (es ++ ev ∷ [])) ≡ kept_count max (n + 1)
unfolding trim
trim_kept max n es ev h = ground (
  arith,
  h,
  length-append es (ev ∷ []),
  length-drop (length (es ++ ev ∷ []) - max) (es ++ ev ∷ []),
)

offer_open : (ev : Event) (ch : Channel) → ch.closed ≡ false → (offer ev ch).closed ≡ false
unfolding offer
offer_open ev ch h = ground arith

offer_all-IsOpen :
    (ev : Event) (subs : List (ℕ × Channel)) → All IsOpen subs → All IsOpen (offer_all ev subs)
unfolding offer_all
offer_all-IsOpen ev [] h = tt
offer_all-IsOpen ev ((n, ch) ∷ subs) h = (offer_open ev ch h.0, offer_all-IsOpen ev subs h.1)

offer_all_numbers :
    (ev : Event) (k : ℕ) (subs : List (ℕ × Channel))
    → All (λ s. s.0 ≤ k) subs
    → All (λ s. s.0 ≤ k) (offer_all ev subs)
unfolding offer_all
offer_all_numbers ev k [] h = tt
offer_all_numbers ev k ((n, ch) ∷ subs) h = (h.0, offer_all_numbers ev k subs h.1)

module _ (json : EventData → Option EventData) where
  pub publish_entry-IsValid :
      (now max : ℕ) (id kind : String) (payload : EventData) (e : Entry)
      → e.terminal ≡ false
      → IsValid max e
      → IsValid max (publish_entry json now max id kind payload e)
  unfolding publish_entry
  publish_entry-IsValid now max id kind payload e live v = record {
    numbered =
        RunsTo-trim (e.next_seq + 1) max _ (RunsTo-append e.next_seq e.events _ v.numbered refl);
    bounded = λ h. length-trim max _ h;
    kept = trim_kept max e.next_seq e.events _ v.kept;
    done_when_terminal = v.done_when_terminal;
    alone_when_terminal = λ h. cc;
    channels_open = offer_all-IsOpen _ e.subscribers v.channels_open;
    subs_numbered = offer_all_numbers _ e.next_sub_id e.subscribers v.subs_numbered;
  }

-- `close` panics on no open channel
pub close_all_open :
    (subs : List (ℕ × Channel))
    → All IsOpen subs
    → (shut : List Channel) × (close_all subs ≡ some shut) × All (λ ch. ch.closed ≡ true) shut
unfolding close_all close
close_all_open [] h = ([], refl, tt)
close_all_open ((n, ch) ∷ subs) h =
    let (shut, e, closed) = close_all_open subs h.1 in
    (record ch { closed = true } ∷ shut, rw (h.0, e), (refl, closed))
