-- ===== src/ErrHandling/Retry/Sequences.antt =====
-- What the executor returns after a sequence of failures that may be retried, with the delays and
-- counters it reports (internal/errhandling/retry.go).
use cannectors.Prelude.{
  ℕ, zero, suc, ◌+◌, ◌-◌, ◌≤◌, ◌<◌, ◌≡◌, ◌≢◌, refl, ◌∙◌, true, false, none, [], ◌∷◌, ◌++◌, Text,
  arith,
}
use cannectors.Prelude.Int.{ℤ, pos, leb_ℤ}
use cannectors.ErrHandling.Classify.{GoError, classify_error}
use cannectors.ErrHandling.Retry.Delay.{milliseconds}
use cannectors.ErrHandling.Retry.Executor.{
  Run, World, fresh, Returned, wait, failed, exhausted, answered, attempt, loop, execute,
}

module _ {A : Type 0} (sanitize : Text → Text) (w : World A) (delay : ℤ → ℤ) where
  -- The error of an attempt.
  abbrev pub error_at : ℕ → GoError
  error_at k = (w.call k).1

  -- Attempt `k` fails with an error that may be retried, and the wait after it is not cut short.
  pub record FailsTransiently (k : ℕ) : Type 0 where
    pub live : w.done_before k ≡ none
    pub failure : error_at k ≢ []
    pub transient : (classify_error sanitize (error_at k)).retryable ≡ true
    pub waited : w.done_waiting k ≡ none

  -- The executor once attempts 0 .. k - 1 have failed and been waited for.
  abbrev pub after : ℕ → Run
  after zero = fresh
  after (suc k) = record (after k) {
    total_attempts = suc k;
    errors = (after k).errors ++ (error_at k ∷ []);
    delays_ms = (after k).delays_ms ++ (milliseconds (delay (pos k)) ∷ []);
  }

  abbrev last_before : ℕ → GoError
  last_before zero = []
  last_before (suc k) = error_at k

  retried : ℕ → Run → GoError → Run
  retried k s e = record s {
    total_attempts = suc k;
    errors = s.errors ++ (e ∷ []);
    delays_ms = s.delays_ms ++ (milliseconds (delay (pos k)) ∷ []);
  }

  answered-retried :
      (n k : ℕ) (next : GoError → Run → Returned sanitize w (pos n) delay) (s : Run) (e : GoError)
      → error_at k ≡ e
      → k < n
      → e ≢ []
      → (classify_error sanitize e).retryable ≡ true
      → w.done_waiting k ≡ none
      → answered sanitize w (pos n) delay k next s ≡ next e (retried k s e)
  unfolding answered retried
  answered-retried n k next s [] f lt h t d = absurd (h refl)
  answered-retried n k next s (l ∷ ls) f lt h t d =
      let more : leb_ℤ (pos n) (pos k) ≡ false = ground arith in
      rw (f, answered) (rw (t, failed) (rw (more, failed) (rw (d, wait))))

  answered-fatal :
      (n k : ℕ) (next : GoError → Run → Returned sanitize w (pos n) delay) (s : Run) (e : GoError)
      → error_at k ≡ e
      → e ≢ []
      → (classify_error sanitize e).retryable ≡ false
      → answered sanitize w (pos n) delay k next s ≡ (
        (none, e),
        record s {
          total_attempts = suc k;
          errors = s.errors ++ (e ∷ []);
          total_duration_ms = w.elapsed_ms k;
        },
      )
  unfolding answered
  answered-fatal n k next s [] f h t = absurd (h refl)
  answered-fatal n k next s (l ∷ ls) f h t = rw (f, answered) (rw (t, failed))

  answered-exhausted :
      (n : ℕ) (next : GoError → Run → Returned sanitize w (pos n) delay) (s : Run) (e : GoError)
      → error_at n ≡ e
      → e ≢ []
      → (classify_error sanitize e).retryable ≡ true
      → answered sanitize w (pos n) delay n next s ≡ (
        (none, e),
        record s {
          total_attempts = suc n;
          errors = s.errors ++ (e ∷ []);
          retry_count = pos n;
          total_duration_ms = w.elapsed_ms n;
        },
      )
  unfolding answered
  answered-exhausted n next s [] f h t = absurd (h refl)
  answered-exhausted n next s (l ∷ ls) f h t =
      let spent : leb_ℤ (pos n) (pos n) ≡ true = ground arith in
      rw (f, answered) (rw (t, failed) (rw (spent, failed) (unfold exhausted in ground arith)))

  loop-retried :
      (n k r : ℕ) (last : GoError) (s : Run)
      → k < n
      → FailsTransiently k
      → loop sanitize w (pos n) delay (suc r) k last s
        ≡ loop sanitize w (pos n) delay r (suc k) (error_at k) (retried k s (error_at k))
  unfolding loop
  loop-retried n k r last s h f =
      rw (f.live, attempt)
        (answered-retried n k (loop sanitize w (pos n) delay r (suc k)) s (error_at k) refl h
          f.failure f.transient f.waited)

  loop-after :
      (n k r : ℕ)
      → r + k ≡ suc n
      → k ≤ n
      → ((i : ℕ) → i < k → FailsTransiently i)
      → loop sanitize w (pos n) delay (suc n) 0 [] fresh
        ≡ loop sanitize w (pos n) delay r k (last_before k) (after k)
  unfolding retried
  loop-after n zero r e h all = rw (let z : r ≡ suc n = omega arith in z)
  loop-after n (suc k) r e h all =
      loop-after n k (suc r) (omega arith) (omega arith) (λ i lt. all i (omega arith))
      ∙ loop-retried n k r (last_before k) (after k) (omega arith) (all k (omega arith))

  -- The run comes to attempt `k` with the rounds left for it.
  execute-answered :
      (n k : ℕ)
      → k ≤ n
      → ((i : ℕ) → i < k → FailsTransiently i)
      → w.done_before k ≡ none
      → execute sanitize w (pos n) delay
        ≡ answered sanitize w
            (pos n)
            delay
            k
            (loop sanitize w (pos n) delay (n - k) (suc k))
            (after k)
  unfolding execute attempt
  execute-answered n k h all live =
      loop-after n k (suc (n - k)) (omega arith) h all ∙ (unfold loop in rw (live, attempt))

  -- If the attempts before `k` fail transiently and attempt `k` succeeds, within the allowed
  -- retries, its value is returned, with `k` retries and the backoff delays of attempts 0 .. k - 1.
  pub execute_succeeds :
      (n k : ℕ)
      → k ≤ n
      → ((i : ℕ) → i < k → FailsTransiently i)
      → w.done_before k ≡ none
      → error_at k ≡ []
      → execute sanitize w (pos n) delay ≡ (
        ((w.call k).0, []),
        record (after k) {
          total_attempts = suc k;
          successful_attempt = suc k;
          retry_count = pos k;
          total_duration_ms = w.elapsed_ms k;
        },
      )
  execute_succeeds n k h all live done =
      execute-answered n k h all live ∙ (unfold answered in rw (done, answered))

  -- If attempt `k` fails with an error that must not be retried, that error is returned at once.
  pub execute_fails_fatally :
      (n k : ℕ)
      → k ≤ n
      → ((i : ℕ) → i < k → FailsTransiently i)
      → w.done_before k ≡ none
      → error_at k ≢ []
      → (classify_error sanitize (error_at k)).retryable ≡ false
      → execute sanitize w (pos n) delay ≡ (
        (none, error_at k),
        record (after k) {
          total_attempts = suc k;
          errors = (after k).errors ++ (error_at k ∷ []);
          total_duration_ms = w.elapsed_ms k;
        },
      )
  execute_fails_fatally n k h all live bad fatal =
      execute-answered n k h all live
      ∙ answered-fatal n k (loop sanitize w (pos n) delay (n - k) (suc k)) (after k) (error_at k)
          refl bad fatal

  -- If every attempt fails transiently, the last error is returned after MaxAttempts + 1 calls.
  pub execute_exhausted :
      (n : ℕ)
      → ((i : ℕ) → i < n → FailsTransiently i)
      → w.done_before n ≡ none
      → error_at n ≢ []
      → (classify_error sanitize (error_at n)).retryable ≡ true
      → execute sanitize w (pos n) delay ≡ (
        (none, error_at n),
        record (after n) {
          total_attempts = suc n;
          errors = (after n).errors ++ (error_at n ∷ []);
          retry_count = pos n;
          total_duration_ms = w.elapsed_ms n;
        },
      )
  execute_exhausted n all live bad transient =
      execute-answered n n (omega arith) all live
      ∙ answered-exhausted n (loop sanitize w (pos n) delay (n - n) (suc n)) (after n) (error_at n)
          refl bad transient
