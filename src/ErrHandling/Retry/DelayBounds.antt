-- ===== src/ErrHandling/Retry/DelayBounds.antt =====
-- The delays between attempts stay within the configured maximum (pkg/connector/retry.go,
-- CalculateDelay; internal/errhandling/retry.go, clampDelay).
use mathlib.Core.Path.{subst}
use cannectors.Prelude.{ℕ, ◌*◌, ◌≤◌, ◌<◌, ◌≡◌, true, false, inl, inr, arith, Bool-cases}
use cannectors.Prelude.Int.{ℤ, pos, negsuc, leb_ℤ}
use cannectors.ErrHandling.Retry.Delay.{
  Float64, RetryConfig, of_milliseconds, clamp_delay, raw_delay, calculate_delay,
}

-- The largest number of milliseconds that a time.Duration holds.
abbrev pub max_milliseconds : ℕ
max_milliseconds = 9223372036854

of_milliseconds_small : (n : ℕ) → n ≤ max_milliseconds → of_milliseconds (pos n) ≡ pos (n * 1000000)
unfolding of_milliseconds
of_milliseconds_small n h = ground arith

-- A Retry-After delay is brought into the range from zero to a positive maximum, and left alone
-- where it lies in that range.
pub clamp_delay_range :
    (d : ℤ) (m : ℕ)
    → 0 < m
    → m ≤ max_milliseconds
    → (leb_ℤ (pos 0) (clamp_delay d (pos m)) ≡ true)
      × (leb_ℤ (clamp_delay d (pos m)) (pos (m * 1000000)) ≡ true)
      × (leb_ℤ (pos 0) d ≡ true → leb_ℤ d (pos (m * 1000000)) ≡ true → clamp_delay d (pos m) ≡ d)
unfolding clamp_delay
clamp_delay_range (pos n) m h k = ground (arith, of_milliseconds_small m k)
clamp_delay_range (negsuc n) m h k = ground (arith, of_milliseconds_small m k)

of_milliseconds_range :
    (r : ℤ) (m : ℕ)
    → m ≤ max_milliseconds
    → leb_ℤ (pos 0) r ≡ true
    → leb_ℤ r (pos m) ≡ true
    → (leb_ℤ (pos 0) (of_milliseconds r) ≡ true)
      × (leb_ℤ (of_milliseconds r) (pos (m * 1000000)) ≡ true)
of_milliseconds_range (pos n) m h l u = rw (of_milliseconds_small n (ground arith)) (ground arith)
of_milliseconds_range (negsuc n) m h l u = absurd (ground arith)

module _ (f : Float64) where
  open f use {Float, of_int, greater, is_nan, to_int, to_int_le, to_int_nonneg, to_int_of_int}

  -- Where the exponential backoff is a number that is not negative, the delay of an attempt lies
  -- between zero and MaxDelayMs.
  pub calculate_delay_range :
      (c : RetryConfig f) (attempt : ℤ) (m : ℕ)
      → c.max_delay_ms ≡ pos m
      → m ≤ max_milliseconds
      → is_nan (raw_delay f c attempt) ≡ false
      → greater (of_int (pos 0)) (raw_delay f c attempt) ≡ false
      → (leb_ℤ (pos 0) (calculate_delay f c attempt) ≡ true)
        × (leb_ℤ (calculate_delay f c attempt) (pos (m * 1000000)) ≡ true)
  unfolding calculate_delay
  calculate_delay_range c attempt m e h number positive =
      elim (Bool-cases (greater (raw_delay f c attempt) (of_int c.max_delay_ms))) [
        | inl above ↦
            rw (above, calculate_delay)
              (rw (e, to_int_of_int m (omega arith))
                (of_milliseconds_range (pos m) m h (ground arith) (ground arith)))
        | inr below ↦
            rw (below, calculate_delay)
              (of_milliseconds_range (to_int (raw_delay f c attempt)) m h
                (to_int_nonneg _ number positive)
                (to_int_le _ m (omega arith) number
                  (subst (λ k. greater (raw_delay f c attempt) (of_int k) ≡ false) e below)))
      ]
