-- ===== src/HttpClient/Attempt.antt =====
-- One attempt of DoWithRetry (internal/httpclient/doretry.go): what a response, or none, comes to. The loop
-- over the attempts is errhandling's executor.
pub mod Verdict
use cannectors.Prelude.{
  ℕ, zero, suc, ◌+◌, Bool, true, false, not, ◌&&◌, ◌||◌, Option, none, some, List, [], ◌∷◌, take,
  Text, codes, leb, if◌then◌else◌,
}
use cannectors.ErrHandling.Classify.{Category, network, server, Classified, classify_http_status}
use cannectors.ErrHandling.Retry.Delay.{is_status_code_retryable}

-- RetryHooks without OnRetry; a hook that is nil says false, or nothing. OnAttemptFailure gets the attempt,
-- the status and the body, of which the error is made.
pub record Hooks : Type 0 where
  pub should_retry_body : Text → Option Bool
  pub on_attempt_failure : ℕ → ℕ → Text → Bool
  pub is_success_status : ℕ → Bool

-- What a request comes to: a body that cannot be rewound, a network error with its classification, a body that
-- cannot be read, or a response with its status, its status line and its body.
pub data Exchange : Type 0 where
  unrewound : Exchange
  unsent : Classified → Exchange
  unread : Exchange
  answered : ℕ → Text → Text → Exchange

-- maxErrorBodyBytes
unfoldable pub read_body : ℕ → Text → Text
read_body status body = if leb 400 status then take 1048576 body else body

abbrev pub network_error : Text → Classified
network_error message = record {
  category = network;
  retryable = true;
  status_code = 0;
  message = message;
}

abbrev pub forced : ℕ → Classified
forced status = record {
  category = server;
  retryable = true;
  status_code = status;
  message = codes "retry forced by retryHintFromBody";
}

abbrev pub asks_retry : Option Bool → Bool
asks_retry none = false
asks_retry (some b) = b

abbrev pub forbids_retry : Option Bool → Bool
forbids_retry none = false
forbids_retry (some b) = not b

-- a response that counts as a success, unless its body asks for a retry
unfoldable pub succeeded : Hooks → ℕ → Text → Option Classified
succeeded h status body =
    if asks_retry (h.should_retry_body body) then some (forced status) else none

-- the allowlist of the configuration in place of the default
unfoldable pub baseline : List ℕ → ℕ → Classified → Classified
unfolding is_status_code_retryable
baseline [] status c = c
baseline (s ∷ ss) status c = record c { retryable = is_status_code_retryable (s ∷ ss) status }

unfoldable pub forbidden : Option Bool → Classified → Classified
forbidden hint c = if forbids_retry hint then record c { retryable = false } else c

unfoldable pub overridden : Bool → Classified → Classified
overridden force c = if force then record c { retryable = true } else c

-- the classification of a status from 400 on
unfoldable pub failed : List ℕ → Hooks → ℕ → ℕ → Text → Text → Classified
unfolding classify_http_status baseline forbidden overridden
failed allowlist h attempt status line body =
    overridden (h.on_attempt_failure attempt status body) (
      forbidden (h.should_retry_body body)
        (baseline allowlist status (classify_http_status status line)))

-- fn in DoWithRetry: the status and the body of the response that is kept, and the error
unfoldable pub attempt_once : List ℕ → Hooks → ℕ → Exchange → Option (ℕ × Text) × Option Classified
unfolding read_body succeeded failed
attempt_once allowlist h attempt unrewound =
    (none, some (network_error (codes "rewinding request body")))
attempt_once allowlist h attempt (unsent c) = (none, some c)
attempt_once allowlist h attempt unread =
    (none, some (network_error (codes "reading response body")))
attempt_once allowlist h attempt (answered status line body) =
    let kept = read_body status body in
    (
      some (status, kept),
      if not (h.is_success_status status) && leb 400 status
          then some (failed allowlist h attempt status line kept)
          else succeeded h status kept,
    )
