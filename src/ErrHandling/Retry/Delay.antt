-- ===== src/ErrHandling/Retry/Delay.antt =====
-- pkg/connector/retry.go: RetryConfig, Validate and CalculateDelay; clampDelay of
-- internal/errhandling/retry.go. A time.Duration is an int64 count of nanoseconds.
use cannectors.Prelude.{
  ℕ, zero, suc, ◌-◌, ◌*◌, ◌/◌, ◌%◌, ◌^◌, ◌≤◌, ◌≡◌, Bool, true, false, Option, none, some, List, [],
  ◌∷◌, Text, ltb, leb, ◌==◌, ◌||◌, if◌then◌else◌,
}
use cannectors.Prelude.Int.{ℤ, pos, negsuc, ltb_ℤ, leb_ℤ}

-- Go's float64 and the operations of package math that the code calls.
pub record Float64 : Type 1 where
  pub Float : Type 0
  pub of_int : ℤ → Float
  pub power : Float → Float → Float
  pub times : Float → Float → Float
  pub greater : Float → Float → Bool
  pub is_nan : Float → Bool
  -- int64(x), truncating
  pub to_int : Float → ℤ
  -- documented: a float that is a number and not above an integer that float64 represents
  -- truncates to at most that integer
  pub to_int_le :
      (x : Float) (n : ℕ)
      → n ≤ 2 ^ 53
      → is_nan x ≡ false
      → greater x (of_int (pos n)) ≡ false
      → leb_ℤ (to_int x) (pos n) ≡ true
  -- documented: one that is not below zero truncates to no negative integer
  pub to_int_nonneg :
      (x : Float)
      → is_nan x ≡ false
      → greater (of_int (pos 0)) x ≡ false
      → leb_ℤ (pos 0) (to_int x) ≡ true
  -- documented: such an integer converts to float64 and back exactly
  pub to_int_of_int : (n : ℕ) → n ≤ 2 ^ 53 → to_int (of_int (pos n)) ≡ pos n

-- int64 arithmetic
abbrev pub two_64 : ℕ
two_64 = 2 ^ 64

abbrev pub minus : ℕ → ℤ
minus zero = pos 0
minus (suc n) = negsuc n

-- The int64 that an integer's low 64 bits stand for.
unfoldable pub wrap : ℤ → ℤ
wrap (pos n) = let w = n % two_64 in if ltb w (2 ^ 63) then pos w else minus (two_64 - w)
wrap (negsuc n) = let w = suc n % two_64 in if leb w (2 ^ 63) then minus w else pos (two_64 - w)

-- time.Duration(n) * time.Millisecond
unfoldable pub of_milliseconds : ℤ → ℤ
unfolding wrap
of_milliseconds (pos n) = wrap (pos (n * 1000000))
of_milliseconds (negsuc n) = wrap (minus (suc n * 1000000))

-- d.Milliseconds()
unfoldable pub milliseconds : ℤ → ℤ
milliseconds (pos n) = pos (n / 1000000)
milliseconds (negsuc n) = minus (suc n / 1000000)

module _ (f : Float64) where
  open f use {Float, of_int, power, times, greater, to_int}

  -- RetryConfig
  pub record RetryConfig : Type 0 where
    pub max_attempts : ℤ
    pub delay_ms : ℤ
    pub backoff_multiplier : Float
    pub max_delay_ms : ℤ
    pub retryable_status_codes : List ℕ
    pub use_retry_after_header : Bool
    pub retry_hint_from_body : Text

-- What Validate rejects, in its order.
pub data ConfigError : Type 0 where
  negative_attempts too_many_attempts negative_delay small_multiplier negative_max_delay :
      ConfigError

-- MaxRetryAttempts
abbrev pub max_retry_attempts : ℕ
max_retry_attempts = 10

module _ (f : Float64) where
  open f use {Float, of_int, power, times, greater, to_int}

  -- Validate; `none` is a nil error. MinBackoffMultiplier is 1.0.
  unfoldable pub validate : RetryConfig f → Option ConfigError
  validate c =
      if ltb_ℤ c.max_attempts (pos 0)
      then some negative_attempts
      else if ltb_ℤ (pos max_retry_attempts) c.max_attempts
      then some too_many_attempts
      else if ltb_ℤ c.delay_ms (pos 0)
      then some negative_delay
      else if greater (of_int (pos 1)) c.backoff_multiplier
      then some small_multiplier
      else if ltb_ℤ c.max_delay_ms (pos 0)
      then some negative_max_delay
      else none

  -- delayMs * backoffMultiplier ^ attempt
  unfoldable pub raw_delay : RetryConfig f → ℤ → Float
  raw_delay c attempt =
      times (of_int c.delay_ms)
        (power c.backoff_multiplier (of_int (if ltb_ℤ attempt (pos 0) then pos 0 else attempt)))

  -- CalculateDelay
  unfoldable pub calculate_delay : RetryConfig f → ℤ → ℤ
  unfolding of_milliseconds
  calculate_delay c attempt =
      if greater (raw_delay c attempt) (of_int c.max_delay_ms)
      then of_milliseconds (to_int (of_int c.max_delay_ms))
      else of_milliseconds (to_int (raw_delay c attempt))

-- IsStatusCodeRetryable
unfoldable pub is_status_code_retryable : List ℕ → ℕ → Bool
is_status_code_retryable [] s = false
is_status_code_retryable (code ∷ codes) s =
    let rest = is_status_code_retryable codes s in s == code || rest

-- clampDelay
unfoldable pub clamp_delay : ℤ → ℤ → ℤ
unfolding of_milliseconds
clamp_delay d max_delay_ms =
    if ltb_ℤ d (pos 0)
    then pos 0
    else if leb_ℤ max_delay_ms (pos 0)
    then d
    else if ltb_ℤ (of_milliseconds max_delay_ms) d
    then of_milliseconds max_delay_ms
    else d
