-- ===== src/Runtime/Execute.antt =====
-- An execution from validation to release (internal/runtime/pipeline.go, ExecuteWithContext and
-- ExecuteWithRecordsContext; records_input.go).
use cannectors.Prelude.{
  ℕ, Bool, not, ◌&&◌, ◌||◌, Option, none, some, List, [], ◌∷◌, ◌++◌, Text, codes, is_blank, is_some,
  if◌then◌else◌, ok, err,
}
use cannectors.Prelude.Int.{pos}
use cannectors.Prelude.Decimal.{itoa_ℕ}
use cannectors.Value.{Value, int, Fields, end, field}
use cannectors.ErrHandling.Classify.{GoError, message_of}
use cannectors.Persistence.Config.{PersistenceConfig, is_enabled}
use cannectors.Runtime.Types.{
  loaded, saved, output_closed, Trace, RetryInfo, Input, Output, Executor, Pipeline,
  ExecutionResult, success, failure,
}
use cannectors.Runtime.Failure.{plain_link, wrap_error, build_execution_error}
use cannectors.Runtime.Stages.{
  FilterResult, Preview, OutputResult, reserve_metadata_field, connect_output, fetch_input,
  close_input, without_input, execute_filters, execute_dry_run_preview, execute_output, last_id_of,
  state_to_save,
}

-- newErrorResult
abbrev pub new_error_result : ExecutionResult
new_error_result = record {
  pipeline_id = codes "";
  status = failure;
  records_processed = 0;
  records_failed = pos 0;
  error = none;
  retry_info = none;
  error_counts = [];
  preview = [];
  preview_unsupported = codes "";
  preview_error = codes "";
}

-- `if p, ok := module.(RetryInfoProvider); ok { result.RetryInfo = p.GetRetryInfo() }`
abbrev pub with_retry_info :
    Option (Trace → Option RetryInfo) → Trace → ExecutionResult → ExecutionResult
with_retry_info none tr r = r
with_retry_info (some f) tr r = record r { retry_info = f tr }

-- The result, the error and the trace of a stage or of the whole execution, and the executor as it is
-- then; the last ID is what `executePipelineStages` returns.
pub record Answer : Type 0 where
  pub executor : Executor
  pub result : ExecutionResult
  pub error : GoError
  pub last_id : Option Text
  pub trace : Trace

abbrev pub failed_with : Executor → ExecutionResult → GoError → Trace → Answer
failed_with e r x tr = record { executor = e; result = r; error = x; last_id = none; trace = tr }

-- setupStatePersistence: the state store follows the configured path, the input is told of the
-- pipeline and loads its state; a failed load is logged only.
unfoldable pub setup_state_persistence :
    Executor → Pipeline → Input → Executor × Option PersistenceConfig × Trace
setup_state_persistence e p i = elim i.persistence [
  | none ↦ (e, none, [])
  | some none ↦ (e, none, loaded p.id ∷ [])
  | some (some c) ↦ (
    record e { has_store = e.has_store || not (is_blank c.storage_path) },
    some c,
    loaded p.id ∷ [],
  )
]

-- the deferred close of the output
unfoldable pub close_output : Executor → Answer → Answer
close_output e a =
    if is_some e.output && not e.retain_modules
    then record a { trace = a.trace ++ (output_closed ∷ []) }
    else a

-- finalizeSuccessWithMetrics
abbrev pub finalize_success : ExecutionResult → ExecutionResult
finalize_success r = record r { status = success; error = none }

-- `sanitize` is urlsan.Sanitize; the formats are those of fmt for the IDs.
module _ (sanitize : Text → Text) (format_float : ℕ → Text) (format_any : Value → Text) where
  unfoldable pub input_failed : GoError → ExecutionResult → ExecutionResult
  unfolding build_execution_error
  input_failed x r = record r {
    error = some (build_execution_error sanitize (codes "INPUT_FAILED") (codes "input") x);
  }

  unfoldable pub filter_failed : ℕ → GoError → ExecutionResult → ExecutionResult
  unfolding build_execution_error
  filter_failed i x r =
      let report = build_execution_error sanitize (codes "FILTER_FAILED") (codes "filter") x in
      record r {
        error = some (record report {
          message = codes "filter module " ++ (itoa_ℕ i ++ (codes " failed: " ++ message_of x));
          details = some (field (codes "filterIndex") (int (pos i)) end);
        });
      }

  unfoldable pub output_failed : OutputResult → ExecutionResult → ExecutionResult
  unfolding build_execution_error
  output_failed o r = record r {
    records_processed = o.records_sent;
    records_failed = o.records_failed;
    error = some (build_execution_error sanitize (codes "OUTPUT_FAILED") (codes "output") o.error);
  }

  -- executeOutputWithResult, once the output has answered; `retry` is the RetryInfoProvider it may be.
  unfoldable pub after_output :
      Executor
      → Option (Trace → Option RetryInfo)
      → ExecutionResult
      → Option Text
      → Trace
      → OutputResult
      → GoError
      → Answer
  unfolding wrap_error output_failed
  after_output e retry r id tr o [] = record {
    executor = e;
    result = record (with_retry_info retry tr r) {
      records_processed = o.records_sent;
      records_failed = o.records_failed;
    };
    error = [];
    last_id = id;
    trace = tr;
  }
  after_output e retry r id tr o (x ∷ xs) =
      failed_with e (with_retry_info retry tr (output_failed o r))
        (wrap_error (codes "executing output module") (x ∷ xs)) tr

  abbrev pub output_retry_info : Option Output → Option (Trace → Option RetryInfo)
  output_retry_info none = none
  output_retry_info (some o) = o.retry_info

  -- what the result takes from the dry run's preview
  unfoldable pub with_preview : Bool → Preview → ExecutionResult → ExecutionResult
  with_preview dry_run v r =
      if dry_run
      then record r {
        preview = v.operations;
        preview_unsupported = v.unsupported_type;
        preview_error = v.failure;
      }
      else r

  -- the stages after the filters
  unfoldable pub after_filters :
      Executor → Pipeline → ExecutionResult → Option Text → FilterResult → Answer
  unfolding wrap_error execute_dry_run_preview execute_output after_output with_preview
      filter_failed
  after_filters e p r id (err (i, x), tally, tr) =
      failed_with e (filter_failed i x r)
        (wrap_error (codes "executing filter module " ++ itoa_ℕ i) x) tr
  after_filters e p r id (ok rs, tally, tr) =
      let v = execute_dry_run_preview e p rs tr in
      let o = execute_output e rs v.1 in
      let counted = with_preview e.dry_run v.0 (record r { error_counts = tally }) in
      after_output e (output_retry_info e.output) counted id o.1 o.0 o.0.error

  -- the stages after the fetch
  unfoldable pub after_fetch :
      Executor
      → Pipeline
      → Input
      → Option PersistenceConfig
      → ExecutionResult
      → (List Fields × GoError) × Trace
      → Answer
  unfolding input_failed wrap_error reserve_metadata_field last_id_of execute_filters after_filters
      close_input without_input
  after_fetch e p i c r ((rs, []), tr) =
      let raw = reserve_metadata_field rs in
      after_filters (without_input e) p (with_retry_info i.retry_info tr r)
        (last_id_of format_float format_any c raw)
        (execute_filters 0 e.filters (close_input e tr) [] raw)
  after_fetch e p i c r ((rs, x ∷ xs), tr) =
      failed_with (without_input e) (with_retry_info i.retry_info tr (input_failed (x ∷ xs) r))
        (wrap_error (codes "executing input module") (x ∷ xs)) (close_input e tr)

  -- executePipelineStages, from the answer of the output's connection on
  unfoldable pub after_connect :
      Executor
      → Pipeline
      → Input
      → Option PersistenceConfig
      → ExecutionResult
      → GoError × Trace
      → Answer
  unfolding fetch_input after_fetch
  after_connect e p i c r ([], tr) = after_fetch e p i c r (fetch_input i tr)
  after_connect e p i c r (x ∷ xs, tr) = failed_with e r (x ∷ xs) tr

  -- executePipelineStages
  unfoldable pub execute_pipeline_stages :
      Executor → Pipeline → Input → Option PersistenceConfig → ExecutionResult → Trace → Answer
  unfolding connect_output after_connect
  execute_pipeline_stages e p i c r tr = after_connect e p i c r (connect_output e tr)

  -- The end of ExecuteWithContext; the execution started at `start`, the state is saved at `now`.
  unfoldable pub finish :
      ℕ
      → ℕ
      → Pipeline
      → Option PersistenceConfig
      → Executor
      → Option Text
      → ExecutionResult
      → Trace
      → GoError
      → Answer
  unfolding is_enabled state_to_save
  finish start now p c e id r tr (x ∷ xs) = record {
    executor = e;
    result = r;
    error = x ∷ xs;
    last_id = id;
    trace = tr;
  }
  finish start now p c e id r tr [] =
      let keeps = is_enabled c && e.has_store in
      let state = (if keeps then state_to_save p.id start now id c else none) in
      record {
        executor = e;
        result = finalize_success r;
        error = [];
        last_id = id;
        trace = elim state [ none ↦ tr | some s ↦ tr ++ (saved p.id s ∷ []) ];
      }

  -- what ExecuteWithContext does once the pipeline and the modules are valid
  unfoldable pub run_valid : ℕ → ℕ → Executor → Pipeline → Input → Answer
  unfolding setup_state_persistence execute_pipeline_stages finish close_output
  run_valid start now e p i =
      let s = setup_state_persistence e p i in
      let c = s.1 in
      let a =
        execute_pipeline_stages s.0 p i c (record new_error_result { pipeline_id = p.id }) s.2 in
      close_output e (finish start now p c a.executor a.last_id a.result a.trace a.error)

  -- validateExecution refuses with this answer.
  unfoldable pub refuse : Executor → Text → Text → Answer
  unfolding build_execution_error
  refuse e module_name message =
      let x = plain_link message ∷ [] in
      let report = build_execution_error sanitize (codes "INVALID_INPUT") module_name x in
      failed_with e (record new_error_result { error = some report }) x []

  -- validateExecution of a pipeline that is not nil, and what follows it
  unfoldable pub validated : ℕ → ℕ → Executor → Pipeline → Option Input → Option Output → Answer
  unfolding refuse run_valid
  validated start now e p none o = refuse e (codes "input") (codes "input module is nil")
  validated start now e p (some i) o =
      if not (is_some o) && not e.dry_run
      then refuse e (codes "output") (codes "output module is nil")
      else run_valid start now e p i

  -- ExecuteWithContext
  unfoldable pub execute_with_context : ℕ → ℕ → Executor → Option Pipeline → Answer
  unfolding refuse validated
  execute_with_context start now e none =
      refuse e (codes "") (codes "pipeline configuration is nil")
  execute_with_context start now e (some p) = validated start now e p e.input e.output

  -- newRecordsInput
  abbrev pub records_input : List Fields → Input
  records_input rs = record { fetch = λ tr. (rs, []); retry_info = none; persistence = none }

  -- ExecuteWithRecordsContext
  unfoldable pub execute_with_records : ℕ → ℕ → Executor → Option Pipeline → List Fields → Answer
  unfolding execute_with_context
  execute_with_records start now e p rs =
      execute_with_context start now (record e { input = some (records_input rs) }) p
