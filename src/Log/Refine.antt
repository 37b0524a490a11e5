-- ===== src/Log/Refine.antt =====
-- The buffer against a log of everything: internal/log/buffer.go keeps the newest entries, in order.
use mathlib.Core.List.{append-nil, append_assoc}
use mathlib.Core.Path.{subst}
use or3_intern.Base.{
  ℕ, zero, suc, ◌+◌, ◌-◌, ◌%◌, ◌^◌, ◌≤◌, ◌<◌, ◌≡◌, refl, sym, ap, ◌∙◌, inl, inr, Bool-cases, leb,
  leb→le, leb_not→lt, List, [], ◌∷◌, ◌++◌, length, drop, drop-append, keep, length-append,
  length-drop, arith,
}
use or3_intern.Base.Int.{ℤ, pos, negsuc}
use or3_intern.Log.Entries.{Entry, Filter, Patterns, normalize_entry, matches}
use or3_intern.Log.Buffer.{
  Buffer, size_or, default_buffer_size, new_buffer, store, append, snapshot, subscribe, unsubscribe,
  Op, appending, subscribing, unsubscribing, run,
}

-- the newest elements of a list that grows at its end
unfoldable pub newest {ℓ} : {A : Type ℓ} → ℕ → List A → List A
newest n xs = drop (length xs - n) xs

abbrev pub numbered : Patterns → ℕ → Entry → ℕ → Entry
numbered p now e n = record (normalize_entry p now e) { id = n % 2 ^ 64 }

-- The log of everything: the entries that the operations append, normalised and numbered from 1 on,
-- when `n` have come before.
unfoldable pub entries_from : Patterns → ℕ → List Op → List Entry
entries_from p n [] = []
entries_from p n (appending now e ∷ ops) = numbered p now e (suc n) ∷ entries_from p (suc n) ops
entries_from p n (subscribing size ∷ ops) = entries_from p n ops
entries_from p n (unsubscribing i ∷ ops) = entries_from p n ops

module _ {ℓ} {A : Type ℓ} where
  drop-suc : (n : ℕ) (xs : List A) → drop 1 (drop n xs) ≡ drop (suc n) xs
  drop-suc zero xs = refl
  drop-suc (suc n) [] = refl
  drop-suc (suc n) (x ∷ xs) = drop-suc n xs

  drop-nil : (n : ℕ) → drop {A = A} n [] ≡ []
  drop-nil zero = refl
  drop-nil (suc n) = refl

  length-newest : (m : ℕ) (all : List A) → length (newest m all) ≡ length all - (length all - m)
  unfolding newest
  length-newest m all = length-drop (length all - m) all

-- One more entry moves the newest ones by one place, where there are enough.
module _ {ℓ} {A : Type ℓ} (m : ℕ) (e : A) (all : List A) where
  newest-full : 1 ≤ m → m ≤ length all → drop 1 (newest m all) ++ e ∷ [] ≡ newest m (all ++ e ∷ [])
  unfolding newest
  newest-full some_kept enough =
      let same : suc (length all - m) ≡ length (all ++ e ∷ []) - m =
        omega (arith, length-append all (e ∷ [])) in
      ap (λ (xs : List A). xs ++ e ∷ []) (drop-suc (length all - m) all)
      ∙ sym (drop-append (suc (length all - m)) all (e ∷ []) (omega arith))
      ∙ ap (λ n. drop n (all ++ e ∷ [])) same

  newest-free : length all < m → newest m all ++ e ∷ [] ≡ newest m (all ++ e ∷ [])
  unfolding newest
  newest-free room =
      let same : length all - m ≡ length (all ++ e ∷ []) - m =
        omega (arith, length-append all (e ∷ [])) in
      sym (drop-append (length all - m) all (e ∷ []) (omega arith))
      ∙ ap (λ n. drop n (all ++ e ∷ [])) same

-- Storing an entry is adding it to the log of everything.
store-newest :
    (m : ℕ) (e : Entry) (all : List Entry)
    → 1 ≤ m
    → store m e (newest m all) ≡ newest m (all ++ e ∷ [])
unfolding store
store-newest m e all h = elim (Bool-cases (leb m (length (newest m all)))) [
  | inl full ↦ rw full (
      newest-full m e all h
        (omega (arith, length-newest m all, leb→le m (length (newest m all)) full)))
  | inr free ↦ rw free (
      newest-free m e all
        (omega (arith, length-newest m all, leb_not→lt m (length (newest m all)) free)))
]

-- what the buffer is beside the log of everything
record Refines (b : Buffer) (all : List Entry) : Type 0 where
  holds_some : 1 ≤ b.max
  counts : b.next ≡ length all % 2 ^ 64
  holds : b.entries ≡ newest b.max all

-- the number that an entry gets is its place in the log of everything
next_number :
    (b : Buffer) (all : List Entry)
    → Refines b all
    → (b.next + 1) % 2 ^ 64 ≡ suc (length all) % 2 ^ 64
next_number b all h = rw h.counts (omega arith)

append-Refines :
    (p : Patterns) (now : ℕ) (e : Entry) (b : Buffer) (all : List Entry)
    → Refines b all
    → Refines (append p now e b).0 (all ++ numbered p now e (suc (length all)) ∷ [])
unfolding append
append-Refines p now e b all h = record {
  holds_some = h.holds_some;
  counts =
      next_number b all h
      ∙ ap (λ n. n % 2 ^ 64)
          (omega (arith, length-append all (numbered p now e (suc (length all)) ∷ [])));
  holds =
      ap (λ n. store b.max (record (normalize_entry p now e) { id = n }) b.entries)
        (next_number b all h)
      ∙ ap (store b.max (numbered p now e (suc (length all)))) h.holds
      ∙ store-newest b.max (numbered p now e (suc (length all))) all h.holds_some;
}

run-Refines :
    (p : Patterns) (ops : List Op) (b : Buffer) (all : List Entry)
    → Refines b all
    → Refines (run p ops b) (all ++ entries_from p (length all) ops)
unfolding run entries_from subscribe unsubscribe
run-Refines p [] b all h = rw (append-nil all) h
run-Refines p (appending now e ∷ ops) b all h =
    let x = numbered p now e (suc (length all)) in
    let rest =
      run-Refines p ops (append p now e b).0 (all ++ x ∷ []) (append-Refines p now e b all h) in
    subst (Refines (run p ops (append p now e b).0))
      (append_assoc all (x ∷ []) (entries_from p (length (all ++ x ∷ [])) ops)
        ∙ ap (λ n. all ++ x ∷ entries_from p n ops) (omega (arith, length-append all (x ∷ []))))
      rest
run-Refines p (subscribing size ∷ ops) b all h =
    run-Refines p ops _ all
      (record { holds_some = h.holds_some; counts = h.counts; holds = h.holds })
run-Refines p (unsubscribing i ∷ ops) b all h =
    run-Refines p ops _ all
      (record { holds_some = h.holds_some; counts = h.counts; holds = h.holds })

new_buffer-Refines : (max : ℤ) → Refines (new_buffer max) []
unfolding new_buffer size_or newest
new_buffer-Refines (pos n) = record {
  holds_some = ground arith;
  counts = refl;
  holds = sym (drop-nil (0 - size_or default_buffer_size (pos n)));
}
new_buffer-Refines (negsuc n) = record { holds_some = omega arith; counts = refl; holds = refl }

max-run : (p : Patterns) (ops : List Op) (b : Buffer) → (run p ops b).max ≡ b.max
unfolding run append subscribe unsubscribe
max-run p [] b = refl
max-run p (appending now e ∷ ops) b = max-run p ops _
max-run p (subscribing size ∷ ops) b = max-run p ops _
max-run p (unsubscribing i ∷ ops) b = max-run p ops _

max-new_buffer : (max : ℤ) → (new_buffer max).max ≡ size_or default_buffer_size max
unfolding new_buffer
max-new_buffer max = refl

-- The buffer refines the log of everything: after any sequence of appended entries, subscriptions and their
-- ends, Snapshot returns, in the order of their appending, those of the newest entries that the filter lets
-- through, as many of the newest as the buffer has room for (1000 where its size is not positive), each
-- normalised and with its place among all appended entries, modulo 2 ^ 64, for its number.
pub snapshot-run :
    (p : Patterns) (f : Filter) (max : ℤ) (ops : List Op)
    → snapshot p f (run p ops (new_buffer max))
      ≡ keep (matches p f) (newest (size_or default_buffer_size max) (entries_from p 0 ops))
unfolding snapshot
snapshot-run p f max ops =
    let h = run-Refines p ops (new_buffer max) [] (new_buffer-Refines max) in
    ap (keep (matches p f)) (
      h.holds
      ∙ ap (λ m. newest m (entries_from p 0 ops))
          (max-run p ops (new_buffer max) ∙ max-new_buffer max))
