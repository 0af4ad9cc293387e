-- ===== src/Runtime/Stages.antt =====
-- The stages of an execution (internal/runtime/pipeline.go): each runs its modules, extends the trace
-- and says what the result takes from it.
use cannectors.Prelude.{
  ℕ, suc, ◌-◌, not, ◌&&◌, Option, none, some, List, [], ◌∷◌, ◌++◌, map, Text, codes, is_blank,
  is_some, length, leb, if◌then◌else◌, Result, ok, err,
}
use cannectors.Prelude.Int.{ℤ, pos, negsuc}
use cannectors.Value.{Value, Fields}
use cannectors.Value.Maps
use cannectors.ErrHandling.Classify.{GoError}
use cannectors.ErrHandling.Marker.Record.{Tally}
use cannectors.Persistence.Config.{
  PersistenceConfig, State, timestamp_enabled, id_enabled, id_field,
}
use cannectors.Persistence.IdExtractor.{extract_last_id}
use cannectors.Runtime.Types.{
  connected, fetched, input_closed, filtered, previewed, sent, Trace, Input, Filter, Executor,
  Pipeline,
}

-- a - b on `int`
abbrev pub difference : ℕ → ℕ → ℤ
difference a b = if leb b a then pos (a - b) else negsuc (b - a - 1)

-- reserveMetadataField: records lose the field `_metadata`.
unfoldable pub reserve_metadata_field : List Fields → List Fields
reserve_metadata_field = map (Maps.remove (codes "_metadata"))

-- connectOutput
unfoldable pub connect_output : Executor → Trace → GoError × Trace
connect_output e tr = if e.dry_run then ([], tr) else elim e.output [
  | none ↦ ([], tr)
  | some o ↦ elim o.connect [ none ↦ ([], tr) | some c ↦ (c tr, tr ++ (connected ∷ [])) ]
]

-- Fetch
unfoldable pub fetch_input : Input → Trace → (List Fields × GoError) × Trace
fetch_input i tr = (i.fetch tr, tr ++ (fetched ∷ []))

-- The close of the input right after the fetch, unless the modules are retained.
unfoldable pub close_input : Executor → Trace → Trace
close_input e tr = if e.retain_modules then tr else tr ++ (input_closed ∷ [])

-- The input is closed once: the executor forgets it.
unfoldable pub without_input : Executor → Executor
without_input e = if e.retain_modules then e else record e { input = none }

-- filterResult: the records, or the error with the index of the filter
abbrev pub FilterResult : Type 0
FilterResult = Result (ℕ × GoError) (List Fields) × Tally × Trace

-- what an answer of a filter leads to
unfoldable pub filter_answer :
    ℕ → (Tally → List Fields → FilterResult) → Trace → List Fields × GoError × Tally → FilterResult
filter_answer i rest tr (rs, [], tally) = rest tally rs
filter_answer i rest tr (rs, l ∷ ls, tally) = (err (i, l ∷ ls), tally, tr)

-- executeFilters from the filter at index `i` on; a nil filter is passed over.
unfoldable pub execute_filters :
    ℕ → List (Option Filter) → Trace → Tally → List Fields → FilterResult
unfolding filter_answer
execute_filters i [] tr tally rs = (ok rs, tally, tr)
execute_filters i (none ∷ fs) tr tally rs = execute_filters (suc i) fs tr tally rs
execute_filters i (some f ∷ fs) tr tally rs =
    let tr' = tr ++ (filtered i rs ∷ []) in
    filter_answer i (execute_filters (suc i) fs tr') tr' (f.process tr tally rs)

-- dryRunPreview
pub record Preview : Type 0 where
  pub operations : List Text
  pub unsupported_type : Text
  pub failure : Text

abbrev pub no_preview : Preview
no_preview = record { operations = []; unsupported_type = []; failure = [] }

abbrev preview_answer : List Text × GoError → Preview
preview_answer (ops, []) = record { operations = ops; unsupported_type = []; failure = [] }
preview_answer (ops, l ∷ ls) = record {
  operations = [];
  unsupported_type = [];
  failure = l.message;
}

-- executeDryRunPreview
unfoldable pub execute_dry_run_preview : Executor → Pipeline → List Fields → Trace → Preview × Trace
execute_dry_run_preview e p rs tr = if not e.dry_run then (no_preview, tr) else elim e.output [
  | none ↦ (no_preview, tr)
  | some o ↦ elim o.preview [
    | none ↦ (record { operations = []; unsupported_type = p.output_type; failure = [] }, tr)
    | some f ↦ (preview_answer (f p.show_credentials rs), tr ++ (previewed rs ∷ []))
  ]
]

-- outputResult
pub record OutputResult : Type 0 where
  pub records_sent : ℕ
  pub records_failed : ℤ
  pub error : GoError

-- executeOutput; without an output the code would panic, which validateExecution excludes.
unfoldable pub execute_output : Executor → List Fields → Trace → OutputResult × Trace
execute_output e rs tr =
    if e.dry_run
    then (record { records_sent = length rs; records_failed = pos 0; error = [] }, tr)
    else elim e.output [
      | none ↦ (record { records_sent = 0; records_failed = pos 0; error = [] }, tr)
      | some o ↦
          let (n, x) = o.send tr rs in
          (
            record { records_sent = n; records_failed = difference (length rs) n; error = x },
            tr ++ (sent rs ∷ []),
          )
    ]

-- The ID that executePipelineStages takes from the raw records.
module _ (format_float : ℕ → Text) (format_any : Value → Text) where
  unfoldable pub last_id_of : Option PersistenceConfig → List Fields → Option Text
  unfolding id_enabled extract_last_id
  last_id_of c [] = none
  last_id_of c (r ∷ rs) =
      if id_enabled c && not (is_blank (id_field c))
      then elim (extract_last_id format_float format_any (r ∷ rs) (id_field c)) [
        | err e ↦ none
        | ok id ↦ some id
      ]
      else none

-- persistState: what is saved, if there is anything to save.
unfoldable pub state_to_save : Text → ℕ → ℕ → Option Text → Option PersistenceConfig → Option State
unfolding timestamp_enabled id_enabled
state_to_save pipeline_id started_at now last_id c =
    let timestamp = (if timestamp_enabled c then some started_at else none) in
    let id = (if id_enabled c then last_id else none) in
    if is_some timestamp
    then some (record {
      pipeline_id = pipeline_id;
      last_timestamp = timestamp;
      last_id = id;
      updated_at = now;
    })
    else if is_some id
    then some (record {
      pipeline_id = pipeline_id;
      last_timestamp = timestamp;
      last_id = id;
      updated_at = now;
    })
    else none
