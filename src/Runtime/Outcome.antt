-- ===== src/Runtime/Outcome.antt =====
-- What an execution reports (internal/runtime/pipeline.go): the status against the error returned, and
-- a destination that cannot be reached.
use cannectors.Prelude.{
  ℕ, ◌≡◌, ◌≢◌, ◌⊎◌, refl, Bool, true, false, not, ◌&&◌, Option, none, some, List, [], ◌∷◌, ◌++◌,
  Text, codes, inl, inr, is_some, if◌then◌else◌, ok, err,
}
use cannectors.Value.{Value, Fields}
use cannectors.ErrHandling.Classify.{GoError, Link}
use cannectors.Persistence.Config.{PersistenceConfig}
use cannectors.Runtime.Types.{
  output_closed, Trace, RetryInfo, success, failure, Input, Output, Executor, Pipeline,
  ExecutionResult,
}
use cannectors.Runtime.Stages.{FilterResult, Preview, OutputResult, connect_output, fetch_input}
use cannectors.Runtime.Execute.{
  Answer, new_error_result, with_retry_info, setup_state_persistence, close_output, after_output,
  with_preview, input_failed, filter_failed, output_failed, after_filters, after_fetch,
  after_connect, execute_pipeline_stages, finish, run_valid, refuse, validated,
  execute_with_context,
}

-- The status is that of a success exactly if no error is returned, and then no error is reported.
abbrev pub IsConsistent : Answer → Type 0
IsConsistent a =
    ((a.error ≡ []) × (a.result.status ≡ success) × (a.result.error ≡ none))
    ⊎ ((a.error ≢ []) × (a.result.status ≡ failure))

with_retry_info-status :
    (f : Option (Trace → Option RetryInfo)) (tr : Trace) (r : ExecutionResult)
    → (with_retry_info f tr r).status ≡ r.status
with_retry_info-status none tr r = refl
with_retry_info-status (some f) tr r = refl

with_preview-status :
    (sanitize : Text → Text) (ff : ℕ → Text) (fa : Value → Text) (b : Bool) (v : Preview)
    (r : ExecutionResult)
    → (with_preview sanitize ff fa b v r).status ≡ r.status
unfolding with_preview
with_preview-status sanitize ff fa true v r = refl
with_preview-status sanitize ff fa false v r = refl

cons≢nil : (x : Link) (xs : GoError) → (x ∷ xs) ≢ []
cons≢nil x xs = λ h. cc

module _ (sanitize : Text → Text) (format_float : ℕ → Text) (format_any : Value → Text) where
  after_output-status :
      (e : Executor) (retry : Option (Trace → Option RetryInfo)) (r : ExecutionResult)
      (id : Option Text) (tr : Trace) (o : OutputResult) (x : GoError)
      → (after_output sanitize format_float format_any e retry r id tr o x).result.status ≡ r.status
  unfolding after_output output_failed
  after_output-status e retry r id tr o [] = with_retry_info-status retry tr r
  after_output-status e retry r id tr o (x ∷ xs) = with_retry_info-status retry tr _

  after_filters-status :
      (e : Executor) (p : Pipeline) (r : ExecutionResult) (id : Option Text) (a : FilterResult)
      → (after_filters sanitize format_float format_any e p r id a).result.status ≡ r.status
  unfolding after_filters filter_failed
  after_filters-status e p r id (err (i, x), tally, tr) = refl
  after_filters-status e p r id (ok rs, tally, tr) =
      rw (after_output-status, with_preview-status) refl

  after_fetch-status :
      (e : Executor) (p : Pipeline) (i : Input) (c : Option PersistenceConfig) (r : ExecutionResult)
      (a : (List Fields × GoError) × Trace)
      → (after_fetch sanitize format_float format_any e p i c r a).result.status ≡ r.status
  unfolding after_fetch input_failed
  after_fetch-status e p i c r ((rs, []), tr) =
      rw (after_filters-status) (with_retry_info-status i.retry_info tr r)
  after_fetch-status e p i c r ((rs, x ∷ xs), tr) = with_retry_info-status i.retry_info tr _

  after_connect-status :
      (e : Executor) (p : Pipeline) (i : Input) (c : Option PersistenceConfig) (r : ExecutionResult)
      (a : GoError × Trace)
      → (after_connect sanitize format_float format_any e p i c r a).result.status ≡ r.status
  unfolding after_connect
  after_connect-status e p i c r ([], tr) = after_fetch-status e p i c r (fetch_input i tr)
  after_connect-status e p i c r (x ∷ xs, tr) = refl

  finish-IsConsistent :
      (start now : ℕ) (p : Pipeline) (c : Option PersistenceConfig) (e : Executor)
      (id : Option Text) (r : ExecutionResult) (tr : Trace) (x : GoError)
      → r.status ≡ failure
      → IsConsistent (finish sanitize format_float format_any start now p c e id r tr x)
  unfolding finish
  finish-IsConsistent start now p c e id r tr [] h = inl (refl, refl, refl)
  finish-IsConsistent start now p c e id r tr (x ∷ xs) h = inr (cons≢nil x xs, h)

  close_output-IsConsistent :
      (e : Executor) (a : Answer) → IsConsistent a → IsConsistent (close_output e a)
  unfolding close_output
  close_output-IsConsistent e a h = go (is_some e.output && not e.retain_modules)
    where
      go :
          (b : Bool)
          → IsConsistent (if b then record a { trace = a.trace ++ (output_closed ∷ []) } else a)
      go true = h
      go false = h

  run_valid-IsConsistent :
      (start now : ℕ) (e : Executor) (p : Pipeline) (i : Input)
      → IsConsistent (run_valid sanitize format_float format_any start now e p i)
  unfolding run_valid execute_pipeline_stages
  run_valid-IsConsistent start now e p i =
      let s = setup_state_persistence e p i in
      let r = record new_error_result { pipeline_id = p.id } in
      let c = connect_output s.0 s.2 in
      let a = after_connect sanitize format_float format_any s.0 p i s.1 r c in
      close_output-IsConsistent e _ (
        finish-IsConsistent start now p s.1 a.executor a.last_id a.result a.trace a.error
          (after_connect-status s.0 p i s.1 r c))

  validated-IsConsistent :
      (start now : ℕ) (e : Executor) (p : Pipeline) (i : Option Input) (o : Option Output)
      → IsConsistent (validated sanitize format_float format_any start now e p i o)
  unfolding validated refuse
  validated-IsConsistent start now e p none o = inr (cons≢nil _ _, refl)
  validated-IsConsistent start now e p (some i) o = go (not (is_some o) && not e.dry_run)
    where
      go :
          (b : Bool)
          → IsConsistent (
              if b
              then refuse sanitize format_float format_any e
                  (codes "output")
                  (codes "output module is nil")
              else run_valid sanitize format_float format_any start now e p i)
      go true = inr (cons≢nil _ _, refl)
      go false = run_valid-IsConsistent start now e p i

  -- Every execution, whatever its modules answer, either returns no error and reports the status
  -- "success" without an error, or returns an error and reports the status "error".
  pub execute_with_context-IsConsistent :
      (start now : ℕ) (e : Executor) (p : Option Pipeline)
      → IsConsistent (execute_with_context sanitize format_float format_any start now e p)
  unfolding execute_with_context refuse
  execute_with_context-IsConsistent start now e none = inr (cons≢nil _ _, refl)
  execute_with_context-IsConsistent start now e (some p) =
      validated-IsConsistent start now e p e.input e.output
