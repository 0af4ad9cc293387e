-- ===== src/ErrHandling/Retry/Outcomes.antt =====
-- How often the executor calls the function and what it returns (internal/errhandling/retry.go).
use cannectors.Prelude.{
  ℕ, zero, suc, ◌+◌, ◌≤◌, ◌<◌, ◌≡◌, refl, [], ◌∷◌, ◌++◌, Text, arith, inl, inr, Bool-cases,
  Option-cases, length, length-append,
}
use cannectors.Prelude.Int.{ℤ, pos, leb_ℤ}
use cannectors.ErrHandling.Classify.{GoError, classify_error}
use cannectors.ErrHandling.Retry.Delay.{milliseconds}
use cannectors.ErrHandling.Retry.Executor.{
  Run, World, fresh, Returned, wait, failed, answered, attempt, loop, execute,
}

module _ {A : Type 0} (sanitize : Text → Text) (w : World A) (delay : ℤ → ℤ) where
  -- The counters of a run that has made `a` attempts, all of them failures that were retried.
  record Counts (a : ℕ) (s : Run) : Type 0 where
    attempts : s.total_attempts ≡ a
    delays : length s.delays_ms ≡ a
    failures : length s.errors ≡ a

  -- The counters of a run that is over, by the number of retries allowed.
  pub record Bounded (n : ℕ) (s : Run) : Type 0 where
    pub attempts_le : s.total_attempts ≤ suc n
    pub delays_le : length s.delays_ms ≤ n
    pub delays_lt : length s.delays_ms ≤ s.total_attempts
    pub failures_le : length s.errors ≤ s.total_attempts

  -- The counters once an attempt has failed.
  record Failed (a : ℕ) (s : Run) : Type 0 where
    attempts : s.total_attempts ≡ suc a
    delays : length s.delays_ms ≡ a
    failures : length s.errors ≡ suc a

  wait-Bounded :
      (n a : ℕ) (next : Run → Returned sanitize w (pos n) delay) (s : Run)
      → a < n
      → Counts (suc a) s
      → ((t : Run) → a < n → Counts (suc a) t → Bounded n (next t).1)
      → Bounded n (wait sanitize w (pos n) delay a next s).1
  unfolding wait
  wait-Bounded n a next s h c k = elim (Option-cases (w.done_waiting a)) [
    | inl waited ↦ rw (waited, wait) (k s h c)
    | inr (e, done) ↦ rw (done, wait) (omega arith)
  ]

  failed-Bounded :
      (n a : ℕ) (e : GoError) (next : Run → Returned sanitize w (pos n) delay) (s : Run)
      → a ≤ n
      → Failed a s
      → ((t : Run) → a < n → Counts (suc a) t → Bounded n (next t).1)
      → Bounded n (failed sanitize w (pos n) delay a e next s).1
  unfolding failed
  failed-Bounded n a e next s h c k =
      let d = milliseconds (delay (pos a)) ∷ [] in
      let t = record s { delays_ms = s.delays_ms ++ d } in
      elim (Bool-cases (classify_error sanitize e).retryable) [
        | inr fatal ↦ rw (fatal, failed) (omega arith)
        | inl transient ↦ elim (Bool-cases (leb_ℤ (pos n) (pos a))) [
          | inl spent ↦ rw (transient, spent, failed) (omega arith)
          | inr more ↦
              rw (transient, more, failed)
                (wait-Bounded n a next t (ground arith)
                  (record {
                    attempts = c.attempts;
                    delays = omega (arith, c.delays, length-append {0} s.delays_ms d);
                    failures = c.failures;
                  })
                  k)
        ]
      ]

  answered-Bounded :
      (n a : ℕ) (next : GoError → Run → Returned sanitize w (pos n) delay) (s : Run) (e : GoError)
      → (w.call a).1 ≡ e
      → a ≤ n
      → Counts a s
      → ((e : GoError) (t : Run) → a < n → Counts (suc a) t → Bounded n (next e t).1)
      → Bounded n (answered sanitize w (pos n) delay a next s).1
  unfolding answered
  answered-Bounded n a next s [] f h c k = rw (f, answered) (omega arith)
  answered-Bounded n a next s (l ∷ ls) f h c k =
      let t = record s { total_attempts = suc a; errors = s.errors ++ ((l ∷ ls) ∷ []) } in
      rw (f, answered)
        (failed-Bounded n a (l ∷ ls) (next (l ∷ ls)) t h
          (record {
            attempts = refl;
            delays = c.delays;
            failures = omega (arith, c.failures, length-append {0} s.errors ((l ∷ ls) ∷ []));
          })
          (k (l ∷ ls)))

  attempt-Bounded :
      (n a : ℕ) (next : GoError → Run → Returned sanitize w (pos n) delay) (s : Run)
      → a ≤ n
      → Counts a s
      → ((e : GoError) (t : Run) → a < n → Counts (suc a) t → Bounded n (next e t).1)
      → Bounded n (attempt sanitize w (pos n) delay a next s).1
  unfolding attempt
  attempt-Bounded n a next s h c k = elim (Option-cases (w.done_before a)) [
    | inl live ↦ rw (live, attempt) (answered-Bounded n a next s (w.call a).1 refl h c k)
    | inr (e, done) ↦ rw (done, attempt) (omega arith)
  ]

  loop-Bounded :
      (n r a : ℕ) (last : GoError) (s : Run)
      → a + r ≡ suc n
      → a ≤ n
      → Counts a s
      → Bounded n (loop sanitize w (pos n) delay r a last s).1
  unfolding loop
  loop-Bounded n zero a last s e h c = absurd (omega arith)
  loop-Bounded n (suc r) a last s e h c =
      attempt-Bounded n a (loop sanitize w (pos n) delay r (suc a)) s h c
        (λ f t lt d. loop-Bounded n r (suc a) f t (omega arith) (omega arith) d)

  -- With MaxAttempts = n the function is called at most n + 1 times, at most n delays are taken and
  -- fewer than the attempts, and no more errors are recorded than attempts made.
  pub execute-Bounded : (n : ℕ) → Bounded n (execute sanitize w (pos n) delay).1
  unfolding execute
  execute-Bounded n =
      loop-Bounded n (suc n) 0 [] fresh (omega arith) (omega arith)
        (record { attempts = refl; delays = refl; failures = refl })
