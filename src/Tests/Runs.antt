-- ===== src/Tests/Runs.antt =====
-- Executions of concrete pipelines (internal/runtime/pipeline.go).
use cannectors.Prelude.{
  ℕ, ◌≡◌, refl, Bool, true, false, none, some, [], ◌∷◌, ◌++◌, Text, codes, All, if◌then◌else◌,
  length,
}
use cannectors.Value.{Value, text, end, field}
use cannectors.ErrHandling.Classify.{Link, GoError}
use cannectors.Runtime.Types.{
  connected, output_closed, Trace, failure, Input, Filter, Output, Executor, Pipeline,
}
use cannectors.Runtime.Failure.{plain_link}
use cannectors.Runtime.Execute.{setup_state_persistence, execute_with_context}
use cannectors.Runtime.Permitted.{Permitted}
use cannectors.Runtime.Permissions.{execute_with_context-Permitted}
use cannectors.Runtime.Outcome.{IsConsistent, execute_with_context-IsConsistent}
use cannectors.Runtime.Totals.{AddsUp, execute_with_context-AddsUp}
use cannectors.Runtime.Unreachable.{execute_with_context_unreachable}

abbrev as_is : Text → Text
as_is t = t

abbrev no_float : ℕ → Text
no_float n = []

abbrev no_any : Value → Text
no_any v = []

abbrev two_records : Input
two_records = record {
  fetch = λ tr. (
    field (codes "id") (text (codes "1")) end ∷ field (codes "id") (text (codes "2")) end ∷ [],
    [],
  );
  retry_info = none;
  persistence = none;
}

abbrev keep_all : Filter
keep_all = record { process = λ tr tally rs. (rs, [], tally) }

abbrev refused : Link
refused = plain_link (codes "connection refused")

abbrev connecting : Trace → GoError
connecting tr = refused ∷ []

abbrev database : Output
database = record {
  send = λ tr rs. (length rs, []);
  connect = some connecting;
  preview = some (λ show rs. (codes "INSERT" ∷ [], []));
  retry_info = none;
}

abbrev executor : Bool → Executor
executor dry_run = record {
  input = some two_records;
  filters = some keep_all ∷ [];
  output = some database;
  dry_run = dry_run;
  retain_modules = false;
  has_store = false;
}

abbrev pipeline : Pipeline
pipeline = record { id = codes "p"; output_type = codes "database"; show_credentials = false }

execute_with_context-Permitted_example :
    All
      (Permitted false false false)
      (execute_with_context as_is no_float no_any 1 2 (executor false) (some pipeline)).trace
unfolding execute_with_context
execute_with_context-Permitted_example =
    execute_with_context-Permitted false false false as_is no_float no_any 1 2 (executor false)
      (some pipeline) refl refl (λ done. absurd cc)

execute_with_context-IsConsistent_example :
    IsConsistent (execute_with_context as_is no_float no_any 1 2 (executor true) (some pipeline))
execute_with_context-IsConsistent_example =
    execute_with_context-IsConsistent as_is no_float no_any 1 2 (executor true) (some pipeline)

execute_with_context_unreachable_example :
    let a = execute_with_context as_is no_float no_any 1 2 (executor false) (some pipeline) in
    let tried =
      (setup_state_persistence (executor false) pipeline two_records).2 ++ (connected ∷ []) in
    (a.trace ≡ (if false then tried else tried ++ (output_closed ∷ [])))
    × (a.error ≡ refused ∷ [])
    × (a.result.status ≡ failure)
    × (a.result.error ≡ none)
execute_with_context_unreachable_example =
    execute_with_context_unreachable as_is no_float no_any 1 2 (executor false) pipeline two_records
      database connecting refused [] refl refl refl refl refl

-- an output that needs no connection and refuses the second of two records
abbrev partial : Output
partial = record { send = λ tr rs. (1, []); connect = none; preview = none; retry_info = none }

abbrev sending : Executor
sending = record (executor false) { output = some partial }

execute_with_context-AddsUp_example :
    let a = execute_with_context as_is no_float no_any 1 2 sending (some pipeline) in
    AddsUp a.result a.trace
unfolding execute_with_context
execute_with_context-AddsUp_example =
    execute_with_context-AddsUp as_is no_float no_any 1 2 sending (some pipeline) partial refl refl
      refl
