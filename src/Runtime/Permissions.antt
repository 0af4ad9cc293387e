-- ===== src/Runtime/Permissions.antt =====
-- What an execution may do to its modules (internal/runtime/pipeline.go): a dry run leaves the
-- destination alone, retained modules stay open, and only a success is saved.
use cannectors.Prelude.{
  ℕ, ◌≡◌, refl, sym, ◌∙◌, Bool, true, false, not, ◌&&◌, Option, none, some, List, [], ◌∷◌, ◌++◌,
  Text, codes, inl, inr, Option-cases, is_some, if◌then◌else◌, ok, err, All,
}
use cannectors.Value.{Value, Fields}
use cannectors.ErrHandling.Classify.{GoError}
use cannectors.Persistence.Config.{PersistenceConfig, State}
use cannectors.Runtime.Types.{
  fetched, saved, output_closed, Trace, RetryInfo, Input, Output, Executor, Pipeline,
  ExecutionResult,
}
use cannectors.Runtime.Stages.{
  FilterResult, OutputResult, connect_output, fetch_input, close_input, without_input,
  execute_dry_run_preview,
}
use cannectors.Runtime.Execute.{
  Answer, new_error_result, setup_state_persistence, close_output, after_output, after_filters,
  after_fetch, after_connect, execute_pipeline_stages, finish, run_valid, refuse, validated,
  execute_with_context,
}
use cannectors.Runtime.Permitted.{
  Permitted, may_load, may_save, may_close_output, may_fetch, Lawful, then_one, Runs,
  connect_output-Lawful, execute_filters-Lawful, preview-Lawful, output-Lawful, close_input-Lawful,
  without_input-Runs,
}

module _ (dry_run retain saves : Bool) where
  module _ (sanitize : Text → Text) (format_float : ℕ → Text) (format_any : Value → Text) where
    after_output-trace :
        (e : Executor) (retry : Option (Trace → Option RetryInfo)) (r : ExecutionResult)
        (id : Option Text) (tr : Trace) (o : OutputResult) (x : GoError)
        → (after_output sanitize format_float format_any e retry r id tr o x).trace ≡ tr
    unfolding after_output
    after_output-trace e retry r id tr o [] = refl
    after_output-trace e retry r id tr o (x ∷ xs) = refl

    after_filters-Lawful :
        (e : Executor) (p : Pipeline) (r : ExecutionResult) (id : Option Text) (a : FilterResult)
        → Runs dry_run retain saves e
        → Lawful dry_run retain saves a.2
        → Lawful dry_run retain saves
            (after_filters sanitize format_float format_any e p r id a).trace
    unfolding after_filters
    after_filters-Lawful e p r id (err (i, x), tally, tr) runs h = h
    after_filters-Lawful e p r id (ok rs, tally, tr) runs h = rw (after_output-trace) (
        output-Lawful dry_run retain saves e rs (execute_dry_run_preview e p rs tr).1 runs
          (preview-Lawful dry_run retain saves e p rs tr runs h))

    after_fetch-Lawful :
        (e : Executor) (p : Pipeline) (i : Input) (c : Option PersistenceConfig)
        (r : ExecutionResult) (a : (List Fields × GoError) × Trace)
        → Runs dry_run retain saves e
        → Lawful dry_run retain saves a.1
        → Lawful dry_run retain saves
            (after_fetch sanitize format_float format_any e p i c r a).trace
    unfolding after_fetch
    after_fetch-Lawful e p i c r ((rs, []), tr) runs h =
        after_filters-Lawful (without_input e) p _ _ _
          (without_input-Runs dry_run retain saves e runs)
          (execute_filters-Lawful dry_run retain saves 0 e.filters (close_input e tr) [] _
            (close_input-Lawful dry_run retain saves e tr runs h))
    after_fetch-Lawful e p i c r ((rs, x ∷ xs), tr) runs h =
        close_input-Lawful dry_run retain saves e tr runs h

    after_connect-Lawful :
        (e : Executor) (p : Pipeline) (i : Input) (c : Option PersistenceConfig)
        (r : ExecutionResult) (a : GoError × Trace)
        → Runs dry_run retain saves e
        → Lawful dry_run retain saves a.1
        → Lawful dry_run retain saves
            (after_connect sanitize format_float format_any e p i c r a).trace
    unfolding after_connect fetch_input
    after_connect-Lawful e p i c r ([], tr) runs h =
        after_fetch-Lawful e p i c r (fetch_input i tr) runs
          (then_one dry_run retain saves tr fetched h may_fetch)
    after_connect-Lawful e p i c r (x ∷ xs, tr) runs h = h

    saved-Lawful :
        (id : Text) (s : Option State) (tr : Trace)
        → saves ≡ true
        → Lawful dry_run retain saves tr
        → Lawful dry_run retain saves (elim s [ none ↦ tr | some t ↦ tr ++ (saved id t ∷ []) ])
    saved-Lawful id none tr only h = h
    saved-Lawful id (some t) tr only h =
        then_one dry_run retain saves tr (saved id t) h (may_save only id t)

    finish-Lawful :
        (start now : ℕ) (p : Pipeline) (c : Option PersistenceConfig) (e : Executor)
        (id : Option Text) (r : ExecutionResult) (tr : Trace) (x : GoError)
        → let a = finish sanitize format_float format_any start now p c e id r tr x in
          (a.error ≡ [] → saves ≡ true)
          → Lawful dry_run retain saves tr
          → Lawful dry_run retain saves a.trace
    unfolding finish
    finish-Lawful start now p c e id r tr [] only h = saved-Lawful p.id _ tr (only refl) h
    finish-Lawful start now p c e id r tr (x ∷ xs) only h = h

    close_output-error : (e : Executor) (a : Answer) → (close_output e a).error ≡ a.error
    unfolding close_output
    close_output-error e a = go (is_some e.output && not e.retain_modules)
      where
        go :
            (b : Bool)
            → (if b then record a { trace = a.trace ++ (output_closed ∷ []) } else a).error
              ≡ a.error
        go true = refl
        go false = refl

    close_output-Lawful :
        (e : Executor) (a : Answer)
        → Runs dry_run retain saves e
        → Lawful dry_run retain saves a.trace
        → Lawful dry_run retain saves (close_output e a).trace
    unfolding close_output
    close_output-Lawful e a runs h = go (is_some e.output) e.retain_modules refl
      where
        go :
            (b k : Bool)
            → e.retain_modules ≡ k
            → Lawful dry_run retain saves
                (if b && not k
                  then record a { trace = a.trace ++ (output_closed ∷ []) }
                  else a).trace
        go false k hk = h
        go true true hk = h
        go true false hk =
            then_one dry_run retain saves a.trace output_closed h
              (may_close_output (sym runs.1 ∙ hk))

    setup-Lawful :
        (e : Executor) (p : Pipeline) (i : Input)
        → Runs dry_run retain saves e
        → Runs dry_run retain saves (setup_state_persistence e p i).0
          × Lawful dry_run retain saves (setup_state_persistence e p i).2
    unfolding setup_state_persistence
    setup-Lawful e p i runs = elim (Option-cases i.persistence) [
      | inl absent ↦ rw (absent, setup_state_persistence) (runs, tt)
      | inr (none, present) ↦ rw (present, setup_state_persistence) (runs, (may_load p.id, tt))
      | inr (some c, present) ↦ rw (present, setup_state_persistence) (runs, (may_load p.id, tt))
    ]

    run_valid-Lawful :
        (start now : ℕ) (e : Executor) (p : Pipeline) (i : Input)
        → Runs dry_run retain saves e
        → ((run_valid sanitize format_float format_any start now e p i).error ≡ [] → saves ≡ true)
        → Lawful dry_run retain saves
            (run_valid sanitize format_float format_any start now e p i).trace
    unfolding run_valid execute_pipeline_stages
    run_valid-Lawful start now e p i runs only =
        let s = setup_state_persistence e p i in
        let laws = setup-Lawful e p i runs in
        let c = connect_output s.0 s.2 in
        let r = record new_error_result { pipeline_id = p.id } in
        let a = after_connect sanitize format_float format_any s.0 p i s.1 r c in
        close_output-Lawful e _ runs (
          finish-Lawful start now p s.1 a.executor a.last_id a.result a.trace a.error
            (λ done. only (close_output-error e _ ∙ done))
            (after_connect-Lawful s.0 p i s.1 r c laws.0
              (connect_output-Lawful dry_run retain saves s.0 s.2 laws.0 laws.1)))

    validated-Lawful :
        (start now : ℕ) (e : Executor) (p : Pipeline) (i : Option Input) (o : Option Output)
        → Runs dry_run retain saves e
        → ((validated sanitize format_float format_any start now e p i o).error ≡ [] → saves ≡ true)
        → Lawful dry_run retain saves
            (validated sanitize format_float format_any start now e p i o).trace
    unfolding validated refuse
    validated-Lawful start now e p none o runs only = tt
    validated-Lawful start now e p (some i) o runs only = go (not (is_some o) && not e.dry_run) only
      where
        answer : Bool → Answer
        answer b =
            if b
            then refuse sanitize format_float format_any e (codes "output")
                (codes "output module is nil")
            else run_valid sanitize format_float format_any start now e p i

        go :
            (b : Bool)
            → ((answer b).error ≡ [] → saves ≡ true)
            → Lawful dry_run retain saves (answer b).trace
        go true y = tt
        go false y = run_valid-Lawful start now e p i runs y

    -- Whatever the modules answer, an execution connects to the output and sends to it only if it is
    -- not a dry run, previews only if it is one, closes modules only if they are not retained, and
    -- saves the state only if it returns no error.
    pub execute_with_context-Permitted :
        (start now : ℕ) (e : Executor) (p : Option Pipeline)
        → e.dry_run ≡ dry_run
        → e.retain_modules ≡ retain
        → ((execute_with_context sanitize format_float format_any start now e p).error ≡ []
            → saves ≡ true)
        → All
            (Permitted dry_run retain saves)
            (execute_with_context sanitize format_float format_any start now e p).trace
    unfolding execute_with_context refuse
    execute_with_context-Permitted start now e none d k only = tt
    execute_with_context-Permitted start now e (some p) d k only =
        validated-Lawful start now e p e.input e.output (d, k) only
