-- ===== src/Tests/Attempts.antt =====
-- Answers with a body that asks for a retry (internal/httpclient/doretry.go).
use cannectors.Prelude.{◌≡◌, refl, true, false, ◌&&◌, some, [], ◌∷◌, codes, ◌==◌}
use cannectors.HttpClient.Attempt.{Hooks, answered, read_body, attempt_once}
use cannectors.HttpClient.Attempt.Verdict.{is_retried, retries, attempt_once-retries}

-- every body asks for a retry, and a first 401 is tried again
abbrev hooks : Hooks
hooks = record {
  should_retry_body = λ body. some true;
  on_attempt_failure = λ attempt status body. (attempt == 0) && (status == 401);
  is_success_status = λ status. status == 404;
}

forbidden_not_retried :
    is_retried (attempt_once [] hooks 0 (answered 403 (codes "Forbidden") (codes "retry"))).1
    ≡ false
unfolding attempt_once
forbidden_not_retried = refl

success_retried :
    is_retried (attempt_once [] hooks 0 (answered 404 (codes "Not Found") (codes "retry"))).1 ≡ true
unfolding attempt_once
success_retried = refl

attempt_once-retries_example :
    is_retried (attempt_once (409 ∷ []) hooks 1 (answered 409 (codes "Conflict") (codes "retry"))).1
    ≡ retries (409 ∷ []) hooks 1 409 (read_body 409 (codes "retry"))
attempt_once-retries_example =
    attempt_once-retries (409 ∷ []) hooks 1 409 (codes "Conflict") (codes "retry")
