-- ===== src/Relay/Backoff.antt =====
-- `backoff` of internal/workers/outboxrelay/outboxrelay.go, in 64-bit nanoseconds with wrap-around.
use geo_notifications_servic.Prelude.{
  ℕ, zero, suc, ◌*◌, ◌%◌, ◌^◌, ◌≤◌, ◌<◌, ◌≡◌, refl, Bool, true, ◌&&◌, ◌||◌, arith, ltb, leb, ◌==◌,
  if◌then◌else◌,
}

abbrev pub second : ℕ
second = 1000000000

-- The bits of `time.Duration(1<<attempt) * time.Second`.
duration_bits : ℕ → ℕ
duration_bits attempt = 2 ^ attempt * second % 2 ^ 64

-- A duration with the top bit set is negative, and so below two seconds.
clamped : ℕ → ℕ
clamped d =
    if leb (2 ^ 63) d || ltb d (2 * second)
    then 2 * second
    else if ltb (300 * second) d
    then 300 * second
    else d

unfoldable pub backoff : ℕ → ℕ
unfolding duration_bits clamped
backoff attempt = clamped (duration_bits attempt)

-- Whatever the number of attempts, overflow included, the delay lies between two seconds and five
-- minutes.
pub backoff_bounds : (n : ℕ) → (2 * second ≤ backoff n) × (backoff n ≤ 300 * second)
unfolding backoff
backoff_bounds n = ground arith

-- Whether two functions agree on every argument under a limit.
agree_under : (f g : ℕ → ℕ) → ℕ → Bool
agree_under f g zero = true
agree_under f g (suc last) = agree_under f g last && f last == g last

agree_at :
    (f g : ℕ → ℕ) (limit attempt : ℕ)
    → attempt < limit
    → agree_under f g limit ≡ true
    → f attempt ≡ g attempt
unfolding agree_under
agree_at f g zero attempt under agree = absurd (omega arith)
agree_at f g (suc last) attempt under agree = ground (arith, agree_at f g last attempt)

-- The delay that is meant: 2^n seconds, at least two and at most three hundred.
abbrev pub exponential : ℕ → ℕ
exponential n =
    if ltb (2 ^ n) 2 then 2 * second else if ltb 300 (2 ^ n) then 300 * second else 2 ^ n * second

agreement : agree_under backoff exponential 34 ≡ true
unfolding agree_under backoff
agreement = refl

-- For every attempt below 34 the delay, with its wrap-around, is 2^n seconds, at least two seconds
-- and at most five minutes.
pub backoff-eq-exponential : (n : ℕ) → n < 34 → backoff n ≡ exponential n
backoff-eq-exponential n h = agree_at backoff exponential 34 n h agreement
