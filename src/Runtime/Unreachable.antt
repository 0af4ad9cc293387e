-- ===== src/Runtime/Unreachable.antt =====
-- A destination that cannot be reached (internal/runtime/pipeline.go, connectOutput and
-- executePipelineStages).
use cannectors.Prelude.{
  ℕ, ◌≡◌, refl, sym, ap, ◌∙◌, Bool, true, false, not, ◌&&◌, Option, none, some, [], ◌∷◌, ◌++◌, Text,
  inl, inr, Option-cases, is_some, if◌then◌else◌,
}
use mathlib.Core.Path.{subst}
use cannectors.Value.{Value}
use cannectors.ErrHandling.Classify.{GoError, Link}
use cannectors.Persistence.Config.{PersistenceConfig}
use cannectors.Runtime.Types.{
  connected, output_closed, Trace, failure, Input, Output, Executor, Pipeline, ExecutionResult,
}
use cannectors.Runtime.Stages.{connect_output}
use cannectors.Runtime.Execute.{
  new_error_result, setup_state_persistence, close_output, after_connect, execute_pipeline_stages,
  finish, run_valid, validated, execute_with_context, failed_with,
}

module _ (sanitize : Text → Text) (format_float : ℕ → Text) (format_any : Value → Text) where
  -- the setup leaves the output and the mode as they are
  setup-output :
      (e : Executor) (p : Pipeline) (i : Input)
      → ((setup_state_persistence e p i).0.output ≡ e.output)
        × ((setup_state_persistence e p i).0.dry_run ≡ e.dry_run)
  unfolding setup_state_persistence
  setup-output e p i = elim (Option-cases i.persistence) [
    | inl absent ↦ rw (absent, setup_state_persistence) (refl, refl)
    | inr (none, present) ↦ rw (present, setup_state_persistence) (refl, refl)
    | inr (some c, present) ↦ rw (present, setup_state_persistence) (refl, refl)
  ]

  connect_output-answer :
      (e : Executor) (tr : Trace) (o : Output) (c : Trace → GoError)
      → e.dry_run ≡ false
      → e.output ≡ some o
      → o.connect ≡ some c
      → connect_output e tr ≡ (c tr, tr ++ (connected ∷ []))
  unfolding connect_output
  connect_output-answer e tr o c wet has can = rw (wet, has, can, connect_output) refl

  finish-failed_with :
      (start now : ℕ) (e : Executor) (p : Pipeline) (i : Input) (c : Option PersistenceConfig)
      (r : ExecutionResult) (tr : Trace) (x : Link) (xs : GoError) (a : GoError × Trace)
      → a ≡ (x ∷ xs, tr)
      → let b = after_connect sanitize format_float format_any e p i c r a in
        finish sanitize format_float format_any start now p c b.executor b.last_id b.result b.trace
          b.error
        ≡ failed_with e r (x ∷ xs) tr
  unfolding after_connect finish
  finish-failed_with start now e p i c r tr x xs a h = rw h refl

  run_valid_unreachable :
      (start now : ℕ) (e : Executor) (p : Pipeline) (i : Input) (o : Output) (c : Trace → GoError)
      (x : Link) (xs : GoError)
      → e.output ≡ some o
      → o.connect ≡ some c
      → e.dry_run ≡ false
      → c (setup_state_persistence e p i).2 ≡ x ∷ xs
      → run_valid sanitize format_float format_any start now e p i
        ≡ close_output e (
            failed_with
              (setup_state_persistence e p i).0
              (record new_error_result { pipeline_id = p.id })
              (x ∷ xs)
              ((setup_state_persistence e p i).2 ++ (connected ∷ [])))
  unfolding run_valid execute_pipeline_stages
  run_valid_unreachable start now e p i o c x xs has_output can wet fails =
      let s = setup_state_persistence e p i in
      let kept = setup-output e p i in
      let answer =
        connect_output-answer s.0 s.2 o c (kept.1 ∙ wet) (kept.0 ∙ has_output) can
        ∙ ap (λ y. (y, s.2 ++ (connected ∷ []))) fails in
      let r = record new_error_result { pipeline_id = p.id } in
      ap (close_output e) (finish-failed_with start now s.0 p i s.1 r _ x xs _ answer)

  execute_with_context-run_valid :
      (start now : ℕ) (e : Executor) (p : Pipeline) (i : Input) (o : Output)
      → e.input ≡ some i
      → e.output ≡ some o
      → execute_with_context sanitize format_float format_any start now e (some p)
        ≡ run_valid sanitize format_float format_any start now e p i
  unfolding execute_with_context validated
  execute_with_context-run_valid start now e p i o has_input has_output =
      ap (λ k. validated sanitize format_float format_any start now e p k e.output) has_input
      ∙ ap (validated sanitize format_float format_any start now e p (some i)) has_output

  close_output-failed_with :
      (e e' : Executor) (r : ExecutionResult) (x : GoError) (tr : Trace) (o : Output)
      → e.output ≡ some o
      → let a = close_output e (failed_with e' r x tr) in
        (a.trace ≡ (if e.retain_modules then tr else tr ++ (output_closed ∷ [])))
        × (a.error ≡ x)
        × (a.result ≡ r)
  unfolding close_output
  close_output-failed_with e e' r x tr o has_output =
      go (is_some e.output) e.retain_modules (ap is_some has_output)
    where
      go :
          (b k : Bool)
          → b ≡ true
          → let a = failed_with e' r x tr in
            let t =
              (if b && not k then record a { trace = a.trace ++ (output_closed ∷ []) } else a) in
            (t.trace ≡ (if k then tr else tr ++ (output_closed ∷ [])))
            × (t.error ≡ x)
            × (t.result ≡ r)
      go true true h = (refl, refl, refl)
      go true false h = (refl, refl, refl)
      go false k h = absurd cc

  -- If the output of a run that is not dry fails to connect, nothing is fetched, filtered or sent: the
  -- connection is the last thing tried before the output is closed. The error returned is the
  -- connection's own, the status is "error", and the result reports no error.
  pub execute_with_context_unreachable :
      (start now : ℕ) (e : Executor) (p : Pipeline) (i : Input) (o : Output) (c : Trace → GoError)
      (x : Link) (xs : GoError)
      → e.input ≡ some i
      → e.output ≡ some o
      → o.connect ≡ some c
      → e.dry_run ≡ false
      → c (setup_state_persistence e p i).2 ≡ x ∷ xs
      → let a = execute_with_context sanitize format_float format_any start now e (some p) in
        let tried = (setup_state_persistence e p i).2 ++ (connected ∷ []) in
        (a.trace ≡ (if e.retain_modules then tried else tried ++ (output_closed ∷ [])))
        × (a.error ≡ x ∷ xs)
        × (a.result.status ≡ failure)
        × (a.result.error ≡ none)
  execute_with_context_unreachable start now e p i o c x xs has_input has_output can wet fails =
      let s = setup_state_persistence e p i in
      let tried = s.2 ++ (connected ∷ []) in
      let r = record new_error_result { pipeline_id = p.id } in
      let runs = execute_with_context-run_valid start now e p i o has_input has_output in
      let stops = run_valid_unreachable start now e p i o c x xs has_output can wet fails in
      let closed = close_output-failed_with e s.0 r (x ∷ xs) tried o has_output in
      subst
        (λ a.
          (a.trace ≡ (if e.retain_modules then tried else tried ++ (output_closed ∷ [])))
          × (a.error ≡ x ∷ xs)
          × (a.result.status ≡ failure)
          × (a.result.error ≡ none))
        (sym (runs ∙ stops))
        (closed.0, closed.1, ap (λ q. q.status) closed.2, ap (λ q. q.error) closed.2)
