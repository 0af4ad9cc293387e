-- ===== src/HttpClient/Attempt/Verdict.antt =====
-- When a response is retried (internal/httpclient/doretry.go), as a table over its status and the hooks.
use cannectors.Prelude.{
  ℕ, ◌≡◌, refl, sym, ap, ◌∙◌, arith, Bool, true, false, not, ◌&&◌, ◌||◌, Option, none, some, List,
  [], ◌∷◌, Text, leb, ◌==◌, if◌then◌else◌, if-cases,
}
use cannectors.ErrHandling.Classify.{Classified, classify_http_status}
use cannectors.ErrHandling.Classify.Http.{classify_http_status_verdict}
use cannectors.ErrHandling.Retry.Delay.{is_status_code_retryable}
use cannectors.HttpClient.Attempt.{
  Hooks, answered, read_body, asks_retry, forbids_retry, succeeded, baseline, forbidden, overridden,
  failed, attempt_once,
}

-- the error is there and retryable
abbrev pub is_retried : Option Classified → Bool
is_retried none = false
is_retried (some c) = c.retryable

-- Without an allowlist 429 and the statuses from 500 on may be retried.
abbrev pub allowed : List ℕ → ℕ → Bool
allowed [] status = status == 429 || leb 500 status
allowed (s ∷ ss) status = is_status_code_retryable (s ∷ ss) status

-- The hint of the body counts in full for a success, and only against a retry for a failure; there the hook
-- OnAttemptFailure has the last word.
unfoldable pub retries : List ℕ → Hooks → ℕ → ℕ → Text → Bool
retries allowlist h attempt status body =
    if h.is_success_status status || not (leb 400 status)
    then asks_retry (h.should_retry_body body)
    else h.on_attempt_failure attempt status body
      || (not (forbids_retry (h.should_retry_body body)) && allowed allowlist status)

default-retryable :
    (status : ℕ) (line : Text)
    → leb 400 status ≡ true
    → (classify_http_status status line).retryable ≡ (status == 429 || leb 500 status)
default-retryable status line f = (classify_http_status_verdict status line).0 ∙ ground (arith, f)

baseline-retryable :
    (allowlist : List ℕ) (status : ℕ) (line : Text)
    → leb 400 status ≡ true
    → (baseline allowlist status (classify_http_status status line)).retryable
      ≡ allowed allowlist status
unfolding baseline
baseline-retryable [] status line f = default-retryable status line f
baseline-retryable (s ∷ ss) status line f = refl

adjusted-retryable :
    (force : Bool) (hint : Option Bool) (c : Classified)
    → (overridden force (forbidden hint c)).retryable
      ≡ (force || (not (forbids_retry hint) && c.retryable))
unfolding overridden forbidden
adjusted-retryable true hint c = refl
adjusted-retryable false none c = refl
adjusted-retryable false (some true) c = refl
adjusted-retryable false (some false) c = refl

succeeded-retried :
    (h : Hooks) (status : ℕ) (body : Text)
    → is_retried (succeeded h status body) ≡ asks_retry (h.should_retry_body body)
unfolding succeeded
succeeded-retried h status body =
    if-cases (λ o. is_retried o ≡ asks_retry (h.should_retry_body body))
      (asks_retry (h.should_retry_body body)) _ _ (λ e. sym e) (λ e. sym e)

failed-retried :
    (allowlist : List ℕ) (h : Hooks) (attempt status : ℕ) (line body : Text)
    → leb 400 status ≡ true
    → (failed allowlist h attempt status line body).retryable ≡ (
        h.on_attempt_failure attempt status body
        || (not (forbids_retry (h.should_retry_body body)) && allowed allowlist status))
unfolding failed
failed-retried allowlist h attempt status line body f =
    adjusted-retryable (h.on_attempt_failure attempt status body) (h.should_retry_body body) _
    ∙ ap
        (λ b.
          h.on_attempt_failure attempt status body
          || (not (forbids_retry (h.should_retry_body body)) && b))
        (baseline-retryable allowlist status line f)

failure_first : (a g x y : Bool) → (not a && g) ≡ true → (if a || not g then x else y) ≡ y
failure_first true g x y e = absurd cc
failure_first false true x y e = refl
failure_first false false x y e = absurd cc

success_first : (a g x y : Bool) → (not a && g) ≡ false → (if a || not g then x else y) ≡ x
success_first true g x y e = refl
success_first false true x y e = absurd cc
success_first false false x y e = refl

-- Whether the error of an answered attempt is retryable, for every status, is what the table `retries` says
-- of its status and of the part of its body that is read: a hint of the body asks for a retry of a success
-- and can forbid that of a failure, but cannot ask for it.
pub attempt_once-retries :
    (allowlist : List ℕ) (h : Hooks) (attempt status : ℕ) (line body : Text)
    → is_retried (attempt_once allowlist h attempt (answered status line body)).1
      ≡ retries allowlist h attempt status (read_body status body)
unfolding attempt_once retries
attempt_once-retries allowlist h attempt status line body =
    let kept = read_body status body in
    if-cases (λ o. is_retried o ≡ retries allowlist h attempt status kept)
      (not (h.is_success_status status) && leb 400 status) _ _
      (λ e.
        failed-retried allowlist h attempt status line kept (ground (arith, e))
        ∙ sym (failure_first (h.is_success_status status) (leb 400 status) _ _ e))
      (λ e.
        succeeded-retried h status kept
        ∙ sym (success_first (h.is_success_status status) (leb 400 status) _ _ e))
