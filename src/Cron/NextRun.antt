-- ===== src/Cron/NextRun.antt =====
-- The next due time of an interval schedule (`nextRunMS` of internal/cron/cron.go), and where its
-- arithmetic of 64 bits wraps.
use or3_intern.Base.{
  ℕ, ◌+◌, ◌-◌, ◌*◌, ◌/◌, ◌^◌, ◌<◌, ◌≤◌, ◌≡◌, ◌∙◌, ap, true, arith, ltb, ltb→lt, ◌⊎◌, inl, inr,
  Bool-cases,
}
use or3_intern.Base.Int.{pos, negsuc, ◌+ℤ◌, mul_int64, floor_div, ltb_ℤ}
use or3_intern.Cron.Schedule.{next_every}

fits : (n k : ℕ) → n * k < 2 ^ 63 → mul_int64 (pos n) k ≡ pos (n * k)
unfolding mul_int64
fits n k h = ground arith

wraps :
    (n k : ℕ) → 2 ^ 63 ≤ n * k → n * k < 2 ^ 64 → mul_int64 (pos n) k ≡ negsuc (2 ^ 64 - n * k - 1)
unfolding mul_int64
wraps n k h h' = ground arith

quotient_add : (now n : ℕ) → (now + n * 1000000) / 1000000 ≡ now / 1000000 + n
quotient_add now n = omega arith

earlier :
    (now d : ℕ)
    → 1000000 ≤ d
    → ltb_ℤ (floor_div (pos now +ℤ negsuc (d - 1)) 1000000) (pos (now / 1000000)) ≡ true
unfolding ◌+ℤ◌ floor_div
earlier now d h = ground arith

plus : (a b : ℕ) → floor_div (pos a +ℤ pos b) 1000000 ≡ pos ((a + b) / 1000000)
unfolding ◌+ℤ◌ floor_div
plus a b = ground arith

every_fits : (n now : ℕ) → n * 1000000 < 2 ^ 63 → next_every (pos n) now ≡ pos (now / 1000000 + n)
unfolding next_every
every_fits n now h = rw (fits n 1000000 h) (plus now (n * 1000000) ∙ ap pos (quotient_add now n))

every_wraps :
    (n now : ℕ)
    → 2 ^ 63 ≤ n * 1000000
    → n * 1000000 + 1000000 ≤ 2 ^ 64
    → ltb_ℤ (next_every (pos n) now) (pos (now / 1000000)) ≡ true
unfolding next_every
every_wraps n now h h' =
    rw (wraps n 1000000 h (omega arith)) (earlier now (2 ^ 64 - n * 1000000) (omega arith))

-- The next run of an interval of n milliseconds, where n * 10^6 + 10^6 is at most 2^64: where the
-- interval fits 63 bits of nanoseconds (some 292 years), it is n milliseconds after the clock's reading;
-- where it does not, it lies before the clock's reading.
pub next_every-bounds :
    (n now : ℕ)
    → n * 1000000 + 1000000 ≤ 2 ^ 64
    → ((n * 1000000 < 2 ^ 63) × (next_every (pos n) now ≡ pos (now / 1000000 + n)))
      ⊎ ((2 ^ 63 ≤ n * 1000000) × (ltb_ℤ (next_every (pos n) now) (pos (now / 1000000)) ≡ true))
next_every-bounds n now h = elim (Bool-cases (ltb (n * 1000000) (2 ^ 63))) [
  | inl small ↦
      let fit : n * 1000000 < 2 ^ 63 = ltb→lt (n * 1000000) (2 ^ 63) small in
      inl (fit, every_fits n now fit)
  | inr big ↦ let long : 2 ^ 63 ≤ n * 1000000 = ground arith in inr (long, every_wraps n now long h)
]
