-- ===== src/ErrHandling/Classify/Http.antt =====
-- What a status code alone decides (internal/errhandling/errors.go, ClassifyHTTPStatus).
use cannectors.Prelude.{ℕ, ◌≡◌, not, ◌||◌, Text, arith, leb, ltb, ◌==◌}
use cannectors.ErrHandling.Classify.{classify_http_status, is_fatal_category}

-- An HTTP failure is retryable exactly when it is a 429, a 5xx or above, or below 400; its category
-- is a fatal one exactly when it is not retryable; and the verdict carries the status code.
pub classify_http_status_verdict :
    (s : ℕ) (msg : Text)
    → let c = classify_http_status s msg in
      (c.retryable ≡ (s == 429 || (leb 500 s || ltb s 400)))
      × (is_fatal_category c.category ≡ not c.retryable)
      × (c.status_code ≡ s)
unfolding classify_http_status
classify_http_status_verdict s msg = ground arith
