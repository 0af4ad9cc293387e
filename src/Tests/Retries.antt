-- ===== src/Tests/Retries.antt =====
-- Sequences of attempts (internal/errhandling/retry.go, pkg/connector/retry.go) in concrete worlds.
use cannectors.Prelude.{
  ℕ, zero, suc, ◌*◌, ◌^◌, ◌<◌, ◌≡◌, ◌≢◌, refl, arith, Bool, true, false, Option, none, some, List,
  [], ◌∷◌, Text, codes,
}
use cannectors.Prelude.Int.{ℤ, pos, negsuc, pos_part, ltb_ℤ, leb_ℤ}
use cannectors.ErrHandling.Classify.{Category, server, validation, GoError, classify_error}
use cannectors.ErrHandling.Retry.Delay.{Float64, RetryConfig}
use cannectors.ErrHandling.Retry.Executor.{World, as_error, execute}
use cannectors.ErrHandling.Retry.Sequences.{FailsTransiently, after, execute_succeeds}

-- The integers as floats: exact on what the tests compute.
ints_to_int_le : (x : ℤ) (n : ℕ) → ltb_ℤ (pos n) x ≡ false → leb_ℤ x (pos n) ≡ true
ints_to_int_le (pos m) n h = ground arith
ints_to_int_le (negsuc m) n h = ground arith

ints_to_int_nonneg : (x : ℤ) → ltb_ℤ x (pos 0) ≡ false → leb_ℤ (pos 0) x ≡ true
ints_to_int_nonneg (pos m) h = ground arith
ints_to_int_nonneg (negsuc m) h = ground arith

abbrev ints : Float64
ints = record {
  Float = ℤ;
  of_int = λ x. x;
  power = λ x y. pos (pos_part x ^ pos_part y);
  times = λ x y. pos (pos_part x * pos_part y);
  greater = λ x y. ltb_ℤ y x;
  is_nan = λ x. false;
  to_int = λ x. x;
  to_int_le = λ x n small number h. ints_to_int_le x n h;
  to_int_nonneg = λ x number h. ints_to_int_nonneg x h;
  to_int_of_int = λ n small. refl;
}

abbrev doubling : RetryConfig ints
doubling = record {
  max_attempts = pos 3;
  delay_ms = pos 1000;
  backoff_multiplier = pos 2;
  max_delay_ms = pos 30000;
  retryable_status_codes = [];
  use_retry_after_header = true;
  retry_hint_from_body = [];
}

abbrev as_is : Text → Text
as_is t = t

abbrev verdict : Category → Bool → GoError
verdict c retryable =
    as_error (record { category = c; retryable = retryable; status_code = 0; message = codes "m" })
      []

verdict-fails : (c : Category) (b : Bool) → verdict c b ≢ []
unfolding as_error
verdict-fails c b = λ e. cc

verdict-retryable : (c : Category) (b : Bool) → (classify_error as_is (verdict c b)).retryable ≡ b
unfolding as_error classify_error
verdict-retryable c b = refl

-- attempt by attempt, after the last one always the last answer
abbrev answers : ℕ → List (Option ℕ × GoError) → Option ℕ × GoError
answers k [] = (none, [])
answers k (a ∷ []) = a
answers zero (a ∷ b ∷ rest) = a
answers (suc k) (a ∷ b ∷ rest) = answers k (b ∷ rest)

abbrev world : List (Option ℕ × GoError) → World ℕ
world calls = record {
  call = λ k. answers k calls;
  done_before = λ k. none;
  done_waiting = λ k. none;
  elapsed_ms = λ k. k;
}

abbrev second : ℤ → ℤ
second attempt = pos 1000000000

abbrev recovers : World ℕ
recovers = world ((none, verdict server true) ∷ (some 7, []) ∷ [])

abbrev gives_up : World ℕ
gives_up = world ((none, verdict server true) ∷ (none, verdict validation false) ∷ [])

abbrev never : World ℕ
never = world ((none, verdict server true) ∷ [])

recovers_at_first : (i : ℕ) → i < 1 → FailsTransiently as_is recovers second i
recovers_at_first zero h = record {
  live = refl;
  failure = verdict-fails server true;
  transient = verdict-retryable server true;
  waited = refl;
}
recovers_at_first (suc i) h = absurd (omega arith)

gives_up_at_first : (i : ℕ) → i < 1 → FailsTransiently as_is gives_up second i
gives_up_at_first zero h = record {
  live = refl;
  failure = verdict-fails server true;
  transient = verdict-retryable server true;
  waited = refl;
}
gives_up_at_first (suc i) h = absurd (omega arith)

never_at_first : (i : ℕ) → i < 1 → FailsTransiently as_is never second i
never_at_first zero h = record {
  live = refl;
  failure = verdict-fails server true;
  transient = verdict-retryable server true;
  waited = refl;
}
never_at_first (suc i) h = absurd (omega arith)

execute_succeeds_example : execute as_is recovers (pos 3) second ≡ (
  (some 7, []),
  record (after as_is recovers second 1) {
    total_attempts = 2;
    successful_attempt = 2;
    retry_count = pos 1;
    total_duration_ms = 1;
  },
)
execute_succeeds_example =
    execute_succeeds as_is recovers second 3 1 (omega arith) recovers_at_first refl refl
