-- ===== src/SecureConn/Replay/Bounds.antt =====
-- The replay window's memory is bounded.
use mathlib.Core.Path.{subst}
use or3_intern.Base.{
  ℕ, zero, suc, ◌+◌, ◌-◌, ◌^◌, ◌<◌, ◌≤◌, ◌≡◌, refl, ◌∙◌, ◌≢◌, inl, inr, Bool-cases, ==_iff, List,
  [], ◌∷◌, length, keep, All, All-map, All-keep, Distinct, Distinct-keep, ◌==◌, not, arith,
}
use or3_intern.Base.Int.{ℤ}
use or3_intern.SecureConn.Replay.{
  ReplayWindow, accept, insert, accept_next, accept_all, new_replay_window,
}
use or3_intern.SecureConn.Replay.Invariant.{IsValid, accept-IsValid, new_replay_window-IsValid}

without : ℕ → List ℕ → List ℕ
without n xs = keep (λ x. not (x == n)) xs

length-without_absent :
    (n : ℕ) (xs : List ℕ) → All (λ y. n ≢ y) xs → length (without n xs) ≡ length xs
unfolding without
length-without_absent n [] h = refl
length-without_absent n (x ∷ xs) h = ground (arith, h.0, length-without_absent n xs h.1)

length-without : (n : ℕ) (xs : List ℕ) → Distinct xs → length xs ≤ length (without n xs) + 1
unfolding without
length-without n [] d = omega arith
length-without n (x ∷ xs) d = elim (Bool-cases (x == n)) [
  | inl same ↦ rw same (
      omega (
        arith,
        length-without_absent n xs (subst (λ m. All (λ y. m ≢ y) xs) ((==_iff x n).0 same) d.0),
      ))
  | inr differs ↦ rw differs (omega (arith, length-without n xs d.1))
]

without-above :
    (lo : ℕ) (xs : List ℕ) → All (λ x. lo ≤ x) xs → All (λ x. suc lo ≤ x) (without lo xs)
unfolding without
without-above lo [] h = tt
without-above lo (x ∷ xs) h = ground (arith, without-above lo xs h.1)

-- `k` holes and no two pigeons in one: at most `k` pigeons
length-le_of_range :
    (k lo : ℕ) (xs : List ℕ)
    → Distinct xs
    → All (λ x. lo ≤ x) xs
    → All (λ x. x < lo + k) xs
    → length xs ≤ k
length-le_of_range k lo [] d above below = omega arith
length-le_of_range zero lo (x ∷ xs) d above below = absurd (omega arith)
length-le_of_range (suc k) lo (x ∷ xs) d above below =
    let rest = without lo (x ∷ xs) in
    let fits =
      length-le_of_range k (suc lo) rest
        (unfold without in Distinct-keep (λ y. not (y == lo)) (x ∷ xs) d)
        (without-above lo (x ∷ xs) above)
        (unfold without in
          All-keep (λ y. y < suc lo + k) (λ y. not (y == lo)) (x ∷ xs)
            (All-map (λ y. y < lo + suc k) (λ y h. omega arith) (x ∷ xs) below)) in
    omega (arith, length-without lo (x ∷ xs) d)

length-seen : (w : ReplayWindow) → IsValid w → length w.seen ≤ w.capacity + 1
length-seen w v =
    length-le_of_range (w.capacity + 1) (w.max_seen - w.capacity) w.seen v.distinct v.above
      (All-map (λ s. s ≤ w.max_seen) (λ s h. omega arith) w.seen v.below)

accept_all-IsValid :
    (w : ReplayWindow) (accepted ss : List ℕ)
    → All (λ s. s < 2 ^ 64) ss
    → IsValid w
    → IsValid (accept_all (w, accepted) ss).0
unfolding accept_all accept_next
accept_all-IsValid w accepted [] h v = v
accept_all-IsValid w accepted (s ∷ ss) h v =
    let (w', accepted') = accept_next (w, accepted) s in
    accept_all-IsValid w' accepted' ss h.1 (accept-IsValid w s h.0 v)

accept_capacity : (w : ReplayWindow) (s : ℕ) → (accept w s).0.capacity ≡ w.capacity
unfolding accept insert
accept_capacity w s = ground arith

accept_all_capacity :
    (w : ReplayWindow) (accepted ss : List ℕ)
    → (accept_all (w, accepted) ss).0.capacity ≡ w.capacity
unfolding accept_all accept_next
accept_all_capacity w accepted [] = refl
accept_all_capacity w accepted (s ∷ ss) =
    let (w', accepted') = accept_next (w, accepted) s in
    accept_all_capacity w' accepted' ss ∙ accept_capacity w s

-- However many frames arrive, a window made with any capacity holds at most one more number than the
-- capacity that the constructor chose.
pub length-seen-accept_all :
    (capacity : ℤ) (ss : List ℕ)
    → All (λ s. s < 2 ^ 64) ss
    → length (accept_all (new_replay_window capacity, []) ss).0.seen
      ≤ (new_replay_window capacity).capacity + 1
length-seen-accept_all capacity ss h = omega (
  arith,
  length-seen _ (accept_all-IsValid _ [] ss h (new_replay_window-IsValid capacity)),
  accept_all_capacity (new_replay_window capacity) [] ss,
)
