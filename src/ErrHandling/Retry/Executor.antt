-- ===== src/ErrHandling/Retry/Executor.antt =====
-- internal/errhandling/retry.go: RetryExecutor with Execute and ExecuteWithHooks.
use cannectors.Prelude.{
  ℕ, zero, suc, ◌-◌, Bool, false, not, Option, none, some, List, [], ◌∷◌, ◌++◌, Text, codes, ltb,
  if◌then◌else◌,
}
use cannectors.Prelude.Int.{ℤ, pos, negsuc, leb_ℤ, eq_ℤ}
use cannectors.Prelude.Decimal.{itoa_ℕ}
use cannectors.ErrHandling.Classify.{
  Category, network, authentication, validation, rate_limit, server, not_found, unknown, Classified,
  GoError, classify_error, classify_network_error, is_retryable,
}
use cannectors.ErrHandling.Retry.Delay.{milliseconds, clamp_delay}

-- string(category)
unfoldable pub category_text : Category → Text
category_text network = codes "network"
category_text authentication = codes "authentication"
category_text validation = codes "validation"
category_text rate_limit = codes "rate_limit"
category_text server = codes "server"
category_text not_found = codes "not_found"
category_text unknown = codes "unknown"

-- (*ClassifiedError).Error
unfoldable pub error_text : Classified → Text
unfolding category_text
error_text c =
    if ltb 0 c.status_code
    then category_text c.category
      ++ (codes " error (status " ++ (itoa_ℕ c.status_code ++ (codes "): " ++ c.message)))
    else category_text c.category ++ (codes " error: " ++ c.message)

-- A *ClassifiedError as an error, in front of the error that it wraps.
unfoldable pub as_error : Classified → GoError → GoError
unfolding error_text
as_error c wrapped =
    record {
      message = error_text c;
      classified = some c;
      classify = none;
      deadline = false;
      canceled = false;
      op_error = none;
      dns_error = none;
      url_error = none;
      timeout = none;
      module_error = none;
    }
    ∷ wrapped

-- The executor's fields; `observed` lists what the callback was called with.
pub record Run : Type 0 where
  pub total_attempts : ℕ
  pub retry_count : ℤ
  pub delays_ms : List ℤ
  pub total_duration_ms : ℕ
  pub errors : List GoError
  pub successful_attempt : ℕ
  pub observed : List (ℕ × GoError × ℤ)

-- resetRetryState
abbrev pub fresh : Run
fresh = record {
  total_attempts = 0;
  retry_count = pos 0;
  delays_ms = [];
  total_duration_ms = 0;
  errors = [];
  successful_attempt = 0;
  observed = [];
}

-- What a run meets, by attempt: what the function returns, whether the context is done before the
-- attempt or during the wait after it, and the clock.
pub record World (A : Type 0) : Type 0 where
  pub call : ℕ → Option A × GoError
  pub done_before : ℕ → Option GoError
  pub done_waiting : ℕ → Option GoError
  pub elapsed_ms : ℕ → ℕ

-- MaxAttempts + 1 rounds of the loop, none if that is not positive.
abbrev pub rounds : ℤ → ℕ
rounds (pos n) = suc n
rounds (negsuc n) = 0

-- Hooks and the callback of ExecuteWithHooks.
pub record Hooks : Type 0 where
  pub extract_retry_after : Option (GoError → Option ℤ)
  pub has_callback : Bool

abbrev pub no_hooks : Hooks
no_hooks = record { extract_retry_after = none; has_callback = false }

-- `sanitize` is urlsan.Sanitize; `delay` is the configuration's CalculateDelay.
module _ {A : Type 0} (sanitize : Text → Text) (w : World A) (max_attempts : ℤ)
    (delay : ℤ → ℤ) where
  abbrev pub Returned : Type 0
  Returned = (Option A × GoError) × Run

  unfoldable pub stopped : ℕ → GoError → Run → Returned
  stopped a e s = ((none, e), record s { total_duration_ms = w.elapsed_ms a })

  unfoldable pub canceled_by : ℕ → GoError → Run → Returned
  unfolding stopped
  canceled_by a e s = stopped a (as_error (classify_network_error sanitize e) e) s

  unfoldable pub succeeded : ℕ → Option A → Run → Returned
  succeeded a v s = (
    (v, []),
    record s {
      successful_attempt = suc a;
      retry_count = pos a;
      total_duration_ms = w.elapsed_ms a;
    },
  )

  -- after the loop: RetryCount = TotalAttempts - 1
  unfoldable pub exhausted : ℕ → GoError → Run → Returned
  exhausted a last s = (
    (none, last),
    record s {
      retry_count = (if ltb 0 s.total_attempts then pos (s.total_attempts - 1) else negsuc 0);
      total_duration_ms = w.elapsed_ms a;
    },
  )

  -- the wait between two attempts
  unfoldable pub wait : ℕ → (Run → Returned) → Run → Returned
  unfolding canceled_by
  wait a next s = elim (w.done_waiting a) [ some e ↦ canceled_by a e s | none ↦ next s ]

  -- Execute, once an attempt has failed with `e`
  unfoldable pub failed : ℕ → GoError → (Run → Returned) → Run → Returned
  unfolding stopped exhausted wait
  failed a e next s =
      if not (classify_error sanitize e).retryable
      then stopped a e s
      else if leb_ℤ max_attempts (pos a)
      then exhausted a e s
      else wait a next (record s { delays_ms = s.delays_ms ++ (milliseconds (delay (pos a)) ∷ []) })

  -- the call of an attempt, and what its result leads to
  unfoldable pub answered : ℕ → (GoError → Run → Returned) → Run → Returned
  unfolding succeeded failed
  answered a next s0 =
      let s = record s0 { total_attempts = suc a } in
      elim (w.call a).1 [
        | [] ↦ succeeded a (w.call a).0 s
        | l ∷ ls ↦
            failed a (l ∷ ls) (next (l ∷ ls)) (record s { errors = s.errors ++ ((l ∷ ls) ∷ []) })
      ]

  -- one round of Execute
  unfoldable pub attempt : ℕ → (GoError → Run → Returned) → Run → Returned
  unfolding canceled_by answered
  attempt a next s = elim (w.done_before a) [
    | some e ↦ canceled_by a e (record s { total_attempts = suc a })
    | none ↦ answered a next s
  ]

  -- the loop of Execute, by the rounds left
  unfoldable pub loop : ℕ → ℕ → GoError → Run → Returned
  unfolding attempt
  loop zero a last s = exhausted a last s
  loop (suc n) a last s = attempt a (loop n (suc a)) s

  unfoldable pub execute : Returned
  unfolding loop
  execute = loop (rounds max_attempts) 0 [] fresh

  module _ (hooks : Hooks) where
    unfoldable pub override : GoError → ℤ → ℤ → ℤ
    override e max_delay_ms d = elim hooks.extract_retry_after [
      | none ↦ d
      | some f ↦ elim (f e) [ none ↦ d | some r ↦ clamp_delay r max_delay_ms ]
    ]

    unfoldable pub observe : ℕ → GoError → ℤ → Run → Run
    observe a e d s =
        if hooks.has_callback then record s { observed = s.observed ++ ((a, e, d) ∷ []) } else s

    -- `max_delay_ms` is the configuration's MaxDelayMs.
    module _ (max_delay_ms : ℤ) where
      -- the delay that an attempt's failure leads to, if there is a next attempt
      unfoldable pub planned : ℕ → GoError → Option ℤ
      unfolding override
      planned a e =
          if leb_ℤ max_attempts (pos a)
          then none
          else if (classify_error sanitize e).retryable
          then some (override e max_delay_ms (delay (pos a)))
          else none

      unfoldable pub plan : Option ℤ → Run → Run
      plan none s = s
      plan (some d) s = record s { delays_ms = s.delays_ms ++ (milliseconds d ∷ []) }

      unfoldable pub delay_or_zero : Option ℤ → ℤ
      delay_or_zero none = pos 0
      delay_or_zero (some d) = d

      unfoldable pub failed_hooked : ℕ → GoError → (Run → Returned) → Run → Returned
      unfolding stopped exhausted wait observe planned plan delay_or_zero
      failed_hooked a e next s0 =
          let s = observe a e (delay_or_zero (planned a e)) (plan (planned a e) s0) in
          if not (classify_error sanitize e).retryable
          then stopped a e s
          else if leb_ℤ max_attempts (pos a)
          then exhausted a e s
          else wait a next s

      unfoldable pub answered_hooked : ℕ → (GoError → Run → Returned) → Run → Returned
      unfolding succeeded failed_hooked
      answered_hooked a next s0 =
          let s = record s0 { total_attempts = suc a } in
          elim (w.call a).1 [
            | [] ↦ succeeded a (w.call a).0 (observe a [] (pos 0) s)
            | l ∷ ls ↦
                failed_hooked a (l ∷ ls) (next (l ∷ ls))
                  (record s { errors = s.errors ++ ((l ∷ ls) ∷ []) })
          ]

      unfoldable pub attempt_hooked : ℕ → (GoError → Run → Returned) → Run → Returned
      unfolding canceled_by answered_hooked
      attempt_hooked a next s = elim (w.done_before a) [
        | some e ↦ canceled_by a e (record s { total_attempts = suc a })
        | none ↦ answered_hooked a next s
      ]

      unfoldable pub loop_hooked : ℕ → ℕ → GoError → Run → Returned
      unfolding attempt_hooked
      loop_hooked zero a last s = exhausted a last s
      loop_hooked (suc n) a last s = attempt_hooked a (loop_hooked n (suc a)) s

      unfoldable pub execute_with_hooks : Returned
      unfolding loop_hooked
      execute_with_hooks = loop_hooked (rounds max_attempts) 0 [] fresh

-- ShouldRetry
unfoldable pub should_retry : (Text → Text) → ℤ → ℤ → GoError → Bool
should_retry sanitize max_attempts a [] = false
should_retry sanitize max_attempts a (l ∷ ls) =
    if eq_ℤ max_attempts (pos 0)
    then false
    else if leb_ℤ max_attempts a
    then false
    else is_retryable sanitize (l ∷ ls)
