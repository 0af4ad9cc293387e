-- ===== src/ErrHandling/Retry/Equivalence.antt =====
-- `Execute` is `ExecuteWithHooks` without hooks and callback (internal/errhandling/retry.go).
use cannectors.Prelude.{ℕ, zero, suc, ◌≡◌, refl, ap, ◌∙◌, fun_ext, [], Text, arith}
use cannectors.Prelude.Int.{ℤ}
use cannectors.ErrHandling.Classify.{GoError}
use cannectors.ErrHandling.Retry.Executor.{
  Run, World, fresh, rounds, no_hooks, Returned, failed, attempt, loop, execute, failed_hooked,
  attempt_hooked, loop_hooked, execute_with_hooks,
}

module _ {A : Type 0} (sanitize : Text → Text) (w : World A) (max_attempts : ℤ) (delay : ℤ → ℤ)
    (max_delay_ms : ℤ) where
  failed_hooked-no_hooks :
      (a : ℕ) (e : GoError) (next : Run → Returned sanitize w max_attempts delay) (s : Run)
      → failed_hooked sanitize w max_attempts delay no_hooks max_delay_ms a e next s
        ≡ failed sanitize w max_attempts delay a e next s
  unfolding failed_hooked failed
  failed_hooked-no_hooks a e next s = ground arith

  attempt_hooked-no_hooks :
      (a : ℕ) (next : GoError → Run → Returned sanitize w max_attempts delay) (s : Run)
      → attempt_hooked sanitize w max_attempts delay no_hooks max_delay_ms a next s
        ≡ attempt sanitize w max_attempts delay a next s
  unfolding attempt_hooked attempt
  attempt_hooked-no_hooks a next s = ground arith

  loop_hooked-no_hooks :
      (n a : ℕ) (last : GoError) (s : Run)
      → loop_hooked sanitize w max_attempts delay no_hooks max_delay_ms n a last s
        ≡ loop sanitize w max_attempts delay n a last s
  unfolding loop_hooked loop
  loop_hooked-no_hooks zero a last s = refl
  loop_hooked-no_hooks (suc n) a last s =
      attempt_hooked-no_hooks a
        (loop_hooked sanitize w max_attempts delay no_hooks max_delay_ms n (suc a)) s
      ∙ ap (λ k. attempt sanitize w max_attempts delay a k s)
          (fun_ext λ e. fun_ext λ t. loop_hooked-no_hooks n (suc a) e t)

  -- Without hooks and callback, `ExecuteWithHooks` returns what `Execute` returns, and leaves the
  -- executor in the same state, in every world.
  pub execute_with_hooks-no_hooks :
      execute_with_hooks sanitize w max_attempts delay no_hooks max_delay_ms
      ≡ execute sanitize w max_attempts delay
  unfolding execute_with_hooks execute
  execute_with_hooks-no_hooks = loop_hooked-no_hooks (rounds max_attempts) 0 [] fresh
