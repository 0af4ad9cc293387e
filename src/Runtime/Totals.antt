-- ===== src/Runtime/Totals.antt =====
-- The numbers of records that an execution reports (internal/runtime/pipeline.go, executeOutput and
-- executeOutputWithResult).
use cannectors.Prelude.{
  ℕ, ◌≡◌, ◌⊎◌, inl, inr, refl, Bool, true, false, not, ◌&&◌, Option-cases, Option, none, some, List,
  [], ◌∷◌, ◌++◌, Text, codes, length, is_some, if◌then◌else◌, ok, err,
}
use cannectors.Value.{Value, Fields}
use cannectors.ErrHandling.Classify.{GoError}
use cannectors.Persistence.Config.{PersistenceConfig, State}
use cannectors.Runtime.Types.{
  Event, sent, saved, output_closed, Trace, RetryInfo, Input, Output, Executor, Pipeline,
  ExecutionResult,
}
use cannectors.Runtime.Failure.{wrap_error}
use cannectors.Runtime.Stages.{
  FilterResult, OutputResult, difference, connect_output, fetch_input, without_input, close_input,
  reserve_metadata_field, last_id_of, execute_filters, execute_dry_run_preview, execute_output,
}
use cannectors.Runtime.Execute.{
  Answer, new_error_result, with_retry_info, setup_state_persistence, close_output, after_output,
  after_filters, with_preview, output_retry_info, after_fetch, after_connect,
  execute_pipeline_stages, finish, run_valid, refuse, validated, execute_with_context,
}

-- The event is one of the trace's.
abbrev pub Happened : Event → Trace → Type 0
Happened ev [] = ⊥
Happened ev (x ∷ tr) = (x ≡ ev) ⊎ Happened ev tr

Happened-left : (ev : Event) (tr tr' : Trace) → Happened ev tr → Happened ev (tr ++ tr')
Happened-left ev [] tr' h = absurd h
Happened-left ev (x ∷ tr) tr' (inl e) = inl e
Happened-left ev (x ∷ tr) tr' (inr h) = inr (Happened-left ev tr tr' h)

Happened-last : (ev : Event) (tr : Trace) → Happened ev (tr ++ (ev ∷ []))
Happened-last ev [] = inl refl
Happened-last ev (x ∷ tr) = inr (Happened-last ev tr)

-- Some list of records was sent, and the result counts those of them that were not sent as failed.
abbrev pub AddsUp : ExecutionResult → Trace → Type 0
AddsUp r tr =
    (rs : List Fields) × Happened (sent rs) tr
    × (r.records_failed ≡ difference (length rs) r.records_processed)

-- an executor that sends: not a dry run, and with an output
abbrev Sends : Executor → Type 0
Sends e = (e.dry_run ≡ false) × ((o : Output) × (e.output ≡ some o))

-- an output's answer that counts the records that were not sent as failed
abbrev Sent : List Fields → OutputResult × Trace → Type 0
Sent rs a = Happened (sent rs) a.1 × (a.0.records_failed ≡ difference (length rs) a.0.records_sent)

execute_output-Sent :
    (e : Executor) (rs : List Fields) (tr : Trace) → Sends e → Sent rs (execute_output e rs tr)
unfolding execute_output
execute_output-Sent e rs tr (wet, (o, present)) =
    rw (wet, present, execute_output) (Happened-last (sent rs) tr, refl)

module _ (sanitize : Text → Text) (format_float : ℕ → Text) (format_any : Value → Text) where
  with_retry_info-AddsUp :
      (f : Option (Trace → Option RetryInfo)) (tr : Trace) (r : ExecutionResult) (o : OutputResult)
      (rs : List Fields)
      → Sent rs (o, tr)
      → AddsUp
          (record (with_retry_info f tr r) {
            records_processed = o.records_sent;
            records_failed = o.records_failed;
          })
          tr
  with_retry_info-AddsUp f tr r o rs h = (rs, h.0, h.1)

  after_output-AddsUp :
      (e : Executor) (f : Option (Trace → Option RetryInfo)) (r : ExecutionResult)
      (id : Option Text) (tr : Trace) (o : OutputResult) (x : GoError) (rs : List Fields)
      → Sent rs (o, tr)
      → let a = after_output sanitize format_float format_any e f r id tr o x in
        a.error ≡ [] → AddsUp a.result a.trace
  unfolding after_output wrap_error
  after_output-AddsUp e f r id tr o [] rs h done = with_retry_info-AddsUp f tr r o rs h
  after_output-AddsUp e f r id tr o (x ∷ xs) rs h done = absurd cc

  after_filters-AddsUp :
      (e : Executor) (p : Pipeline) (r : ExecutionResult) (id : Option Text) (q : FilterResult)
      → Sends e
      → let a = after_filters sanitize format_float format_any e p r id q in
        a.error ≡ [] → AddsUp a.result a.trace
  unfolding after_filters wrap_error
  after_filters-AddsUp e p r id (err (i, x), tally, tr) s done = absurd cc
  after_filters-AddsUp e p r id (ok rs, tally, tr) s done =
      let v = execute_dry_run_preview e p rs tr in
      let o = execute_output e rs v.1 in
      let counted =
        with_preview sanitize format_float format_any e.dry_run v.0
          (record r { error_counts = tally }) in
      let retry = output_retry_info sanitize format_float format_any e.output in
      after_output-AddsUp e retry counted id o.1 o.0 o.0.error rs (execute_output-Sent e rs v.1 s)
        done

  without_input-Sends : (e : Executor) → Sends e → Sends (without_input e)
  unfolding without_input
  without_input-Sends e s = go e.retain_modules
    where
      go : (b : Bool) → Sends (if b then e else record e { input = none })
      go true = s
      go false = s

  after_fetch-AddsUp :
      (e : Executor) (p : Pipeline) (i : Input) (c : Option PersistenceConfig) (r : ExecutionResult)
      (q : (List Fields × GoError) × Trace)
      → Sends e
      → let a = after_fetch sanitize format_float format_any e p i c r q in
        a.error ≡ [] → AddsUp a.result a.trace
  unfolding after_fetch wrap_error
  after_fetch-AddsUp e p i c r ((rs, []), tr) s done =
      let raw = reserve_metadata_field rs in
      after_filters-AddsUp (without_input e) p (with_retry_info i.retry_info tr r)
        (last_id_of format_float format_any c raw)
        (execute_filters 0 e.filters (close_input e tr) [] raw) (without_input-Sends e s) done
  after_fetch-AddsUp e p i c r ((rs, x ∷ xs), tr) s done = absurd cc

  after_connect-AddsUp :
      (e : Executor) (p : Pipeline) (i : Input) (c : Option PersistenceConfig) (r : ExecutionResult)
      (q : GoError × Trace)
      → Sends e
      → let a = after_connect sanitize format_float format_any e p i c r q in
        a.error ≡ [] → AddsUp a.result a.trace
  unfolding after_connect
  after_connect-AddsUp e p i c r ([], tr) s done =
      after_fetch-AddsUp e p i c r (fetch_input i tr) s done
  after_connect-AddsUp e p i c r (x ∷ xs, tr) s done = absurd cc

  saved-Happened :
      (ev : Event) (id : Text) (s : Option State) (tr : Trace)
      → Happened ev tr
      → Happened ev (elim s [ none ↦ tr | some t ↦ tr ++ (saved id t ∷ []) ])
  saved-Happened ev id none tr h = h
  saved-Happened ev id (some t) tr h = Happened-left ev tr (saved id t ∷ []) h

  finish-AddsUp :
      (start now : ℕ) (p : Pipeline) (c : Option PersistenceConfig) (e : Executor)
      (id : Option Text) (r : ExecutionResult) (tr : Trace) (x : GoError)
      → (x ≡ [] → AddsUp r tr)
      → let a = finish sanitize format_float format_any start now p c e id r tr x in
        a.error ≡ [] → AddsUp a.result a.trace
  unfolding finish
  finish-AddsUp start now p c e id r tr [] h done =
      let (rs, happened, failed) = h refl in
      (rs, saved-Happened (sent rs) p.id _ tr happened, failed)
  finish-AddsUp start now p c e id r tr (x ∷ xs) h done = absurd cc

  close_output-AddsUp :
      (e : Executor) (a : Answer)
      → (a.error ≡ [] → AddsUp a.result a.trace)
      → (close_output e a).error ≡ []
      → AddsUp (close_output e a).result (close_output e a).trace
  unfolding close_output
  close_output-AddsUp e a h = go (is_some e.output && not e.retain_modules)
    where
      closed : Bool → Answer
      closed b = if b then record a { trace = a.trace ++ (output_closed ∷ []) } else a

      go : (b : Bool) → (closed b).error ≡ [] → AddsUp (closed b).result (closed b).trace
      go true done =
          let (rs, happened, failed) = h done in
          (rs, Happened-left (sent rs) a.trace _ happened, failed)
      go false done = h done

  setup-Sends :
      (e : Executor) (p : Pipeline) (i : Input) → Sends e → Sends (setup_state_persistence e p i).0
  unfolding setup_state_persistence
  setup-Sends e p i s = elim (Option-cases i.persistence) [
    | inl absent ↦ rw (absent, setup_state_persistence) s
    | inr (none, present) ↦ rw (present, setup_state_persistence) s
    | inr (some c, present) ↦ rw (present, setup_state_persistence) s
  ]

  run_valid-AddsUp :
      (start now : ℕ) (e : Executor) (p : Pipeline) (i : Input)
      → Sends e
      → let a = run_valid sanitize format_float format_any start now e p i in
        a.error ≡ [] → AddsUp a.result a.trace
  unfolding run_valid execute_pipeline_stages
  run_valid-AddsUp start now e p i s done =
      let u = setup_state_persistence e p i in
      let r = record new_error_result { pipeline_id = p.id } in
      let c = connect_output u.0 u.2 in
      let a = after_connect sanitize format_float format_any u.0 p i u.1 r c in
      close_output-AddsUp e _
        (finish-AddsUp start now p u.1 a.executor a.last_id a.result a.trace a.error
          (after_connect-AddsUp u.0 p i u.1 r c (setup-Sends e p i s)))
        done

  validated-AddsUp :
      (start now : ℕ) (e : Executor) (p : Pipeline) (i : Option Input) (o : Option Output)
      → Sends e
      → let a = validated sanitize format_float format_any start now e p i o in
        a.error ≡ [] → AddsUp a.result a.trace
  unfolding validated refuse
  validated-AddsUp start now e p none o s done = absurd cc
  validated-AddsUp start now e p (some i) o s done = go (not (is_some o) && not e.dry_run) done
    where
      answer : Bool → Answer
      answer b =
          if b
          then refuse sanitize format_float format_any e (codes "output")
              (codes "output module is nil")
          else run_valid sanitize format_float format_any start now e p i

      go : (b : Bool) → (answer b).error ≡ [] → AddsUp (answer b).result (answer b).trace
      go true d = absurd cc
      go false d = run_valid-AddsUp start now e p i s d

  -- An execution with an output that is no dry run and returns no error has sent a list of records, and
  -- the records that it reports as failed are those of the list that it does not report as processed.
  pub execute_with_context-AddsUp :
      (start now : ℕ) (e : Executor) (p : Option Pipeline) (o : Output)
      → e.dry_run ≡ false
      → e.output ≡ some o
      → let a = execute_with_context sanitize format_float format_any start now e p in
        a.error ≡ [] → AddsUp a.result a.trace
  unfolding execute_with_context refuse
  execute_with_context-AddsUp start now e none o wet present done = absurd cc
  execute_with_context-AddsUp start now e (some p) o wet present done =
      validated-AddsUp start now e p e.input e.output (wet, (o, present)) done
