-- ===== src/Runtime/Failure.antt =====
-- How an error is reported (internal/runtime/pipeline.go, buildExecutionError) and wrapped.
use cannectors.Prelude.{
  Bool, true, false, not, ◌||◌, Option, none, some, ◌∷◌, ◌++◌, Text, codes, is_blank, if◌then◌else◌,
}
use cannectors.Prelude.Int.{pos, leb_ℤ}
use cannectors.Value.{int, Fields, end, field}
use cannectors.Value.Maps
use cannectors.ErrHandling.Classify.{
  Link, GoError, ModuleInfo, message_of, as_first, classify_error, is_fatal,
}
use cannectors.ErrHandling.Retry.Executor.{category_text}
use cannectors.Runtime.Types.{ExecutionError}

-- An error with a message and no more: errors.New, and the front of fmt.Errorf("…: %w", err).
abbrev pub plain_link : Text → Link
plain_link message = record {
  message = message;
  classified = none;
  classify = none;
  deadline = false;
  canceled = false;
  op_error = none;
  dns_error = none;
  url_error = none;
  timeout = none;
  module_error = none;
}

unfoldable pub wrap_error : Text → GoError → GoError
wrap_error prefix e = plain_link (prefix ++ (codes ": " ++ message_of e)) ∷ e

abbrev is_empty : Fields → Bool
is_empty end = true
is_empty (field k v m) = false

-- The details of a module error, with its record index if that is known.
unfoldable pub merged_details : ModuleInfo → Option Fields
merged_details i =
    if not (is_empty i.details) || leb_ℤ (pos 0) i.record_index
    then some (
        if leb_ℤ (pos 0) i.record_index
        then Maps.put (codes "record_index") (int i.record_index) i.details
        else i.details)
    else none

-- buildExecutionError; `sanitize` is urlsan.Sanitize.
unfoldable pub build_execution_error : (Text → Text) → Text → Text → GoError → ExecutionError
unfolding merged_details as_first is_fatal classify_error category_text
build_execution_error sanitize code module_name e =
    let category = category_text (classify_error sanitize e).category in
    let error_type = (if is_fatal e then codes "fatal" else codes "retryable") in
    elim (as_first (λ l. l.module_error) e) [
      | none ↦ record {
        code = code;
        message = message_of e;
        module_name = module_name;
        category = category;
        error_type = error_type;
        details = none;
      }
      | some i ↦ record {
        code = (if is_blank i.code then code else i.code);
        message = message_of e;
        module_name = (if is_blank i.module_name then module_name else i.module_name);
        category = category;
        error_type = error_type;
        details = merged_details i;
      }
    ]
