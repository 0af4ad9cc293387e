-- ===== src/Tests/Errors.antt =====
-- Verdicts on concrete errors (internal/errhandling/errors.go).
use cannectors.Prelude.{◌≡◌, refl, true, false, some, [], ◌∷◌, Text, codes}
use cannectors.ErrHandling.Classify.{
  Category, validation, Classified, Link, GoError, classify_http_status, classify_error,
  is_retryable, is_fatal, is_fatal_category,
}
use cannectors.ErrHandling.Classify.Chain.{is_retryable_ignores_module_verdict}
use cannectors.Runtime.Failure.{plain_link}

abbrev as_is : Text → Text
as_is t = t

abbrev refused : GoError
refused = record (plain_link (codes "dial")) { op_error = some (codes "dial", codes "tcp") } ∷ []

abbrev permanent : Classified
permanent = record {
  category = validation;
  retryable = false;
  status_code = 0;
  message = codes "bad row";
}

-- a typed module error over a context deadline
abbrev timed_out_module : GoError
timed_out_module =
    record (plain_link (codes "bad row")) { classify = some (some permanent) }
    ∷ record (plain_link (codes "context deadline exceeded")) { deadline = true }
    ∷ []

is_retryable_ignores_module_verdict_example :
    (is_retryable as_is timed_out_module ≡ true)
    × ((classify_error as_is timed_out_module).retryable ≡ false)
unfolding cannectors.ErrHandling.Classify.as_first
    cannectors.ErrHandling.Classify.classify_from_chain cannectors.ErrHandling.Classify.is_any
is_retryable_ignores_module_verdict_example =
    is_retryable_ignores_module_verdict as_is timed_out_module permanent refl refl refl refl
