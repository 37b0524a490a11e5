-- ===== src/SecureConn/Replay/Once.antt =====
-- No sequence number is let through twice, and inside the window only repetitions are blocked.
use or3_intern.Base.{
  ℕ, ◌+◌, ◌^◌, ◌<◌, ◌≡◌, ap, ◌≢◌, ◌↔◌, inl, inr, true, false, Option, none, List, [], ◌∷◌, elem,
  All, All-elem, All-map, Distinct, keep, leb, arith, Bool-cases,
}
use or3_intern.Base.Int.{ℤ}
use or3_intern.SecureConn.Replay.{
  Blocked, ReplayWindow, accept, accept_next, accept_all, insert, new_replay_window,
}
use or3_intern.SecureConn.Replay.Invariant.{
  Remembered, IsValid, accept-cases, accept-Remembered, insert-Remembered, insert-Remembered_self,
  insert-IsValid, new_replay_window-IsValid,
}

-- the window knows exactly what went through
record Tracks (w : ReplayWindow) (accepted : List ℕ) : Type 0 where
  valid : IsValid w
  remembers : All (Remembered w) accepted
  once : Distinct accepted
  only : (s : ℕ) → elem s w.seen ≡ true → elem s accepted ≡ true

Tracks-new : (capacity : ℤ) → Tracks (new_replay_window capacity) []
unfolding new_replay_window
Tracks-new capacity = record {
  valid = new_replay_window-IsValid capacity;
  remembers = tt;
  once = tt;
  only = λ s h. h;
}

elem-keep_le :
    (cutoff n : ℕ) (xs : List ℕ)
    → elem n (keep (λ item. leb cutoff item) xs) ≡ true
    → elem n xs ≡ true
elem-keep_le cutoff n [] h = h
elem-keep_le cutoff n (x ∷ xs) h = ground (arith, elem-keep_le cutoff n xs)

elem-insert :
    (w : ReplayWindow) (s n : ℕ) → elem n (insert w s).seen ≡ true → elem n (s ∷ w.seen) ≡ true
unfolding insert
elem-insert w s n h = elem-keep_le _ n (s ∷ w.seen) h

fresh :
    (w : ReplayWindow) (s : ℕ)
    → accept w s ≡ (insert w s, none)
    → IsValid w
    → (t : ℕ) → Remembered w t
    → s ≢ t
fresh w s passed v t r e =
    accept-Remembered w s v.top_fits (rw e r)
      (ap (λ (p : ReplayWindow × Option Blocked). p.1) passed)

Tracks-accept :
    (w : ReplayWindow) (accepted : List ℕ) (s : ℕ)
    → s < 2 ^ 64
    → Tracks w accepted
    → Tracks (accept_next (w, accepted) s).0 (accept_next (w, accepted) s).1
unfolding accept_next
Tracks-accept w accepted s fits t = elim (accept-cases w s) [
  | inl (passed, new) ↦
      rw (passed, accept_next)
        (record {
          valid = insert-IsValid w s fits new t.valid;
          remembers = (
            insert-Remembered_self w s,
            All-map (Remembered w) (insert-Remembered w s) accepted t.remembers,
          );
          once = (All-map (Remembered w) (fresh w s passed t.valid) accepted t.remembers, t.once);
          only = λ n h. ground (arith, elem-insert w s n, t.only n);
        })
  | inr (b, blocked) ↦ rw (blocked, accept_next) t
]

Tracks-accept_all :
    (w : ReplayWindow) (accepted ss : List ℕ)
    → All (λ s. s < 2 ^ 64) ss
    → Tracks w accepted
    → Tracks (accept_all (w, accepted) ss).0 (accept_all (w, accepted) ss).1
unfolding accept_all
Tracks-accept_all w accepted [] h t = t
Tracks-accept_all w accepted (s ∷ ss) h t =
    let (w', accepted') = accept_next (w, accepted) s in
    Tracks-accept_all w' accepted' ss h.1 (Tracks-accept w accepted s h.0 t)

-- From a new window of any capacity, whatever `uint64` sequence numbers arrive in whatever order, no
-- number is let through twice.
pub accept_all-Distinct :
    (capacity : ℤ) (ss : List ℕ)
    → All (λ s. s < 2 ^ 64) ss
    → Distinct (accept_all (new_replay_window capacity, []) ss).1
accept_all-Distinct capacity ss h = (Tracks-accept_all _ [] ss h (Tracks-new capacity)).once

elem-eq-false_of :
    (s : ℕ) (xs ys : List ℕ)
    → (elem s xs ≡ true → elem s ys ≡ true)
    → elem s ys ≡ false
    → elem s xs ≡ false
elem-eq-false_of s xs ys sub h = elim (Bool-cases (elem s xs)) [
  | inl yes_in ↦ absurd (ground (arith, sub yes_in))
  | inr not_in ↦ not_in
]

accept_new :
    (w : ReplayWindow) (s : ℕ)
    → 0 < s
    → w.max_seen < s + w.capacity
    → s + w.capacity < 2 ^ 64
    → elem s w.seen ≡ false
    → (accept w s).1 ≡ none
unfolding accept
accept_new w s nonzero inside fits new = ground arith

accept_old :
    (w : ReplayWindow) (accepted : List ℕ) (s : ℕ)
    → Tracks w accepted
    → (accept w s).1 ≡ none
    → elem s accepted ≡ false
accept_old w accepted s t passed = elim (Bool-cases (elem s accepted)) [
  | inl again ↦ absurd (
      accept-Remembered w s t.valid.top_fits (All-elem (Remembered w) s accepted again t.remembers)
        passed)
  | inr new ↦ new
]

-- In the state that any frames lead to, a nonzero number that is inside the window (less than
-- `capacity` below the largest number seen) and whose sum with the capacity does not overflow is let
-- through exactly when it was not let through before.
pub accept-exact :
    (capacity : ℤ) (ss : List ℕ) (s : ℕ)
    → All (λ n. n < 2 ^ 64) ss
    → 0 < s
    → (accept_all (new_replay_window capacity, []) ss).0.max_seen
      < s + (accept_all (new_replay_window capacity, []) ss).0.capacity
    → s + (accept_all (new_replay_window capacity, []) ss).0.capacity < 2 ^ 64
    → ((accept (accept_all (new_replay_window capacity, []) ss).0 s).1 ≡ none)
      ↔ (elem s (accept_all (new_replay_window capacity, []) ss).1 ≡ false)
accept-exact capacity ss s h nonzero inside fits =
    let (w, accepted) = accept_all (new_replay_window capacity, []) ss in
    let t = Tracks-accept_all _ [] ss h (Tracks-new capacity) in
    (
      accept_old w accepted s t,
      λ new. accept_new w s nonzero inside fits (elem-eq-false_of s w.seen accepted (t.only s) new),
    )
