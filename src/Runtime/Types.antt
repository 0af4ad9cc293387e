-- ===== src/Runtime/Types.antt =====
-- What an execution works on (internal/runtime/pipeline.go, pkg/connector/types.go). A module answers
-- by what the execution has done so far, which the trace lists, so a module may keep state and
-- answer differently from one run to the next. Logging and the clock's readings are not modelled.
use cannectors.Prelude.{ℕ, Bool, Option, List, Text}
use cannectors.Prelude.Int.{ℤ}
use cannectors.Value.{Fields}
use cannectors.ErrHandling.Classify.{GoError}
use cannectors.ErrHandling.Marker.Record.{Tally}
use cannectors.Persistence.Config.{PersistenceConfig, State}

-- What an execution does to its modules and to the state store, in order.
pub data Event : Type 0 where
  loaded : Text → Event
  connected : Event
  fetched : Event
  input_closed : Event
  filtered : ℕ → List Fields → Event
  previewed : List Fields → Event
  sent : List Fields → Event
  saved : Text → State → Event
  output_closed : Event

abbrev pub Trace : Type 0
Trace = List Event

-- connector.RetryInfo
pub record RetryInfo : Type 0 where
  pub total_attempts : ℤ
  pub retry_count : ℤ
  pub retry_delays_ms : List ℤ
  pub total_duration_ms : ℤ

-- input.Module, with the optional RetryInfoProvider and StatePersistentInput; the persistence
-- configuration of the latter may be nil.
pub record Input : Type 0 where
  pub fetch : Trace → List Fields × GoError
  pub retry_info : Option (Trace → Option RetryInfo)
  pub persistence : Option (Option PersistenceConfig)

-- filter.Module: the records, the error, and the run's tally of markers
pub record Filter : Type 0 where
  pub process : Trace → Tally → List Fields → List Fields × GoError × Tally

-- output.Module, with the optional ConnectableModule, PreviewableModule and RetryInfoProvider
pub record Output : Type 0 where
  pub send : Trace → List Fields → ℕ × GoError
  pub connect : Option (Trace → GoError)
  pub preview : Option (Bool → List Fields → List Text × GoError)
  pub retry_info : Option (Trace → Option RetryInfo)

-- Executor; `has_store` says that a state store is set.
pub record Executor : Type 0 where
  pub input : Option Input
  pub filters : List (Option Filter)
  pub output : Option Output
  pub dry_run : Bool
  pub retain_modules : Bool
  pub has_store : Bool

-- connector.Pipeline, as far as the executor reads it
pub record Pipeline : Type 0 where
  pub id : Text
  pub output_type : Text
  pub show_credentials : Bool

-- connector.ExecutionError
pub record ExecutionError : Type 0 where
  pub code : Text
  pub message : Text
  pub module_name : Text
  pub category : Text
  pub error_type : Text
  pub details : Option Fields

pub data Status : Type 0 where
  success failure : Status

-- connector.ExecutionResult
pub record ExecutionResult : Type 0 where
  pub pipeline_id : Text
  pub status : Status
  pub records_processed : ℕ
  pub records_failed : ℤ
  pub error : Option ExecutionError
  pub retry_info : Option RetryInfo
  pub error_counts : Tally
  pub preview : List Text
  pub preview_unsupported : Text
  pub preview_error : Text
