-- ===== src/SecureConn/Replay/Invariant.antt =====
-- What the replay window keeps of the sequence numbers that it let through.
use or3_intern.Base.{
  ℕ, ◌+◌, ◌-◌, ◌%◌, ◌^◌, ◌≤◌, ◌<◌, ◌≡◌, refl, ◌≢◌, ◌⊎◌, inl, inr, true, false, none, some, List, [],
  ◌∷◌, keep, elem, All, All-map, All-keep, All-ne_of_elem, Distinct, Distinct-keep, ltb, leb, ◌==◌,
  ◌&&◌, Bool-cases, arith, if◌then◌else◌,
}
use or3_intern.Base.Int.{ℤ}
use or3_intern.SecureConn.Replay.{
  Blocked, order_invalid, repeated, old, ReplayWindow, accept, insert, new_replay_window,
}

-- how the window knows that `s` was let through
abbrev pub Known : ReplayWindow → ℕ → Type 0
Known w s = (elem s w.seen ≡ true) ⊎ ((w.capacity < w.max_seen) × (s < w.max_seen - w.capacity))

abbrev pub Remembered : ReplayWindow → ℕ → Type 0
Remembered w s = (s ≤ w.max_seen) × Known w s

pub record IsValid (w : ReplayWindow) : Type 0 where
  pub top_fits : w.max_seen < 2 ^ 64
  pub positive : 0 < w.capacity
  pub below : All (λ s. s ≤ w.max_seen) w.seen
  pub above : All (λ s. w.max_seen - w.capacity ≤ s) w.seen
  pub distinct : Distinct w.seen

elem-keep :
    (cutoff n : ℕ) (xs : List ℕ)
    → cutoff ≤ n
    → elem n (keep (λ item. leb cutoff item) xs) ≡ elem n xs
elem-keep cutoff n [] h = refl
elem-keep cutoff n (x ∷ xs) h = ground (arith, elem-keep cutoff n xs h)

-- a number is let through and inserted, or the window stays as it was
pub accept-cases :
    (w : ReplayWindow) (s : ℕ)
    → ((accept w s ≡ (insert w s, none)) × (elem s w.seen ≡ false))
      ⊎ ((b : Blocked) × (accept w s ≡ (w, some b)))
unfolding accept
accept-cases w s = elim (Bool-cases (s == 0)) [
  | inl zeroth ↦ inr (order_invalid, rw zeroth)
  | inr nonzero ↦ elim (Bool-cases (elem s w.seen)) [
    | inl again ↦ inr (repeated, rw (nonzero, again))
    | inr new ↦
        elim (Bool-cases
          (ltb w.capacity w.max_seen && leb ((s + w.capacity) % 2 ^ 64) w.max_seen)) [
            | inl late ↦ inr (old, rw (nonzero, new, late))
            | inr fits ↦ inl (rw (nonzero, new, fits), new)
          ]
  ]
]

-- a number that the window remembers is blocked
pub accept-Remembered :
    (w : ReplayWindow) (s : ℕ) → w.max_seen < 2 ^ 64 → Remembered w s → (accept w s).1 ≢ none
unfolding accept
accept-Remembered w s top h = ground arith

-- an insertion forgets nothing
pub insert-Remembered : (w : ReplayWindow) (s t : ℕ) → Remembered w t → Remembered (insert w s) t
unfolding insert
insert-Remembered w s t h =
    let top = if ltb w.max_seen s then s else w.max_seen in
    let cutoff = if ltb w.capacity top then top - w.capacity else 0 in
    ground (arith, elem-keep cutoff t (s ∷ w.seen))

pub insert-Remembered_self : (w : ReplayWindow) (s : ℕ) → Remembered (insert w s) s
unfolding insert
insert-Remembered_self w s =
    let top = if ltb w.max_seen s then s else w.max_seen in
    let cutoff = if ltb w.capacity top then top - w.capacity else 0 in
    ground (arith, elem-keep cutoff s (s ∷ w.seen))

All-keep-leb :
    (cutoff : ℕ) (xs : List ℕ) → All (λ s. cutoff ≤ s) (keep (λ item. leb cutoff item) xs)
All-keep-leb cutoff [] = tt
All-keep-leb cutoff (x ∷ xs) = ground (arith, All-keep-leb cutoff xs)

pub insert-IsValid :
    (w : ReplayWindow) (s : ℕ)
    → s < 2 ^ 64
    → elem s w.seen ≡ false
    → IsValid w
    → IsValid (insert w s)
unfolding insert
insert-IsValid w s fits new v =
    let top = if ltb w.max_seen s then s else w.max_seen in
    let cutoff = if ltb w.capacity top then top - w.capacity else 0 in
    let test = λ (item : ℕ). leb cutoff item in
    record {
      top_fits = ground arith;
      positive = v.positive;
      below =
          All-keep (λ x. x ≤ top) test (s ∷ w.seen)
            (ground arith, All-map (λ x. x ≤ w.max_seen) (λ x h. ground arith) w.seen v.below);
      above =
          All-map (λ x. cutoff ≤ x) (λ x h. ground arith) (keep test (s ∷ w.seen))
            (All-keep-leb cutoff (s ∷ w.seen));
      distinct = Distinct-keep test (s ∷ w.seen) (All-ne_of_elem s w.seen new, v.distinct);
    }

-- the window's invariant outlives every frame
pub accept-IsValid : (w : ReplayWindow) (s : ℕ) → s < 2 ^ 64 → IsValid w → IsValid (accept w s).0
accept-IsValid w s fits v = elim (accept-cases w s) [
  | inl (passed, new) ↦ rw passed (insert-IsValid w s fits new v)
  | inr (b, blocked) ↦ rw blocked v
]

pub new_replay_window-IsValid : (capacity : ℤ) → IsValid (new_replay_window capacity)
unfolding new_replay_window
new_replay_window-IsValid capacity = ground arith
