-- ===== src/ErrHandling/Classify.antt =====
-- internal/errhandling/errors.go and module_error.go: categories, HTTP status codes, network errors
-- and the verdict on any error. A Go error is the list of links of its Unwrap chain, nil is the
-- empty list, and a link records what errors.Is and errors.As answer at it; an error that wraps
-- several others at once is not modelled. The error that a verdict wraps (OriginalErr) is the rest
-- of the chain and no field of the verdict.
pub mod Http
pub mod Chain
use cannectors.Prelude.{
  ℕ, Bool, true, false, ◌||◌, Option, none, some, List, [], ◌∷◌, ◌++◌, Text, codes, leb, ◌==◌,
  if◌then◌else◌,
}
use cannectors.Prelude.Int.{ℤ}
use cannectors.Value.{Fields}

-- ErrorCategory
pub data Category : Type 0 where
  network authentication validation rate_limit server not_found unknown : Category

-- ClassifiedError
pub record Classified : Type 0 where
  pub category : Category
  pub retryable : Bool
  pub status_code : ℕ
  pub message : Text

-- What a typed module error answers (module_error.go, ModuleError).
pub record ModuleInfo : Type 0 where
  pub code : Text
  pub module_name : Text
  pub record_index : ℤ
  pub details : Fields

-- One link of an Unwrap chain.
pub record Link : Type 0 where
  -- Error() of the error that begins here
  pub message : Text
  -- the link is a *ClassifiedError
  pub classified : Option Classified
  -- the link is a Classifiable, with the answer of its Classify
  pub classify : Option (Option Classified)
  -- errors.Is matches context.DeadlineExceeded, context.Canceled
  pub deadline : Bool
  pub canceled : Bool
  -- *net.OpError with Op and Net; *net.DNSError with Name; *url.Error with Op, URL and Err
  pub op_error : Option (Text × Text)
  pub dns_error : Option Text
  pub url_error : Option (Text × Text × Text)
  -- the link has a method Timeout, with its answer
  pub timeout : Option Bool
  -- the link is a ModuleError
  pub module_error : Option ModuleInfo

abbrev pub GoError : Type 0
GoError = List Link

-- err.Error(); never called on nil
abbrev pub message_of : GoError → Text
message_of [] = []
message_of (l ∷ ls) = l.message

-- errors.As: the first link that has what `f` looks for.
unfoldable pub as_first {ℓ} : {A : Type ℓ} → (Link → Option A) → GoError → Option A
as_first f [] = none
as_first f (l ∷ ls) = let rest = as_first f ls in elim (f l) [ none ↦ rest | some a ↦ some a ]

-- errors.Is
unfoldable pub is_any : (Link → Bool) → GoError → Bool
is_any f [] = false
is_any f (l ∷ ls) = let rest = is_any f ls in f l || rest

abbrev verdict : Category → Bool → ℕ → Text → Classified
verdict c r s m = record { category = c; retryable = r; status_code = s; message = m }

-- ClassifyHTTPStatus
unfoldable pub classify_http_status : ℕ → Text → Classified
classify_http_status s msg =
    if s == 401
    then verdict authentication false s (codes "unauthorized")
    else if s == 403
    then verdict authentication false s (codes "forbidden")
    else if s == 400
    then verdict validation false s (codes "bad request")
    else if s == 422
    then verdict validation false s (codes "unprocessable entity")
    else if s == 404
    then verdict not_found false s (codes "not found")
    else if s == 429
    then verdict rate_limit true s (codes "rate limited")
    else if s == 500
    then verdict server true s (codes "internal server error")
    else if s == 502
    then verdict server true s (codes "bad gateway")
    else if s == 503
    then verdict server true s (codes "service unavailable")
    else if s == 504
    then verdict server true s (codes "gateway timeout")
    else if leb 500 s
    then verdict server true s (codes "server error")
    else if leb 400 s
    then verdict validation false s (codes "client error")
    else verdict unknown true s msg

-- classifyFromChain: the first Classifiable that has something to say.
unfoldable pub classify_from_chain : GoError → Option Classified
classify_from_chain [] = none
classify_from_chain (l ∷ ls) =
    let rest = classify_from_chain ls in
    elim l.classify [ none ↦ rest | some none ↦ rest | some (some c) ↦ some c ]

-- explicitClassification
unfoldable pub explicit_classification : GoError → Option Classified
unfolding as_first classify_from_chain
explicit_classification e = elim (as_first (λ l. l.classified) e) [
  | some c ↦ some c
  | none ↦ classify_from_chain e
]

abbrev nil_verdict : Classified
nil_verdict = verdict unknown false 0 (codes "nil error")

abbrev deadline_verdict : Classified
deadline_verdict = verdict network true 0 (codes "request timeout")

abbrev canceled_verdict : Classified
canceled_verdict = verdict network false 0 (codes "context canceled")

abbrev unknown_verdict : GoError → Classified
unknown_verdict e = verdict unknown true 0 (message_of e)

abbrev holds : Option Bool → Bool
holds none = false
holds (some b) = b

abbrev is_found {ℓ} : {A : Type ℓ} → Option A → Bool
is_found none = false
is_found (some a) = true

-- `sanitize` is urlsan.Sanitize, which strips a URL by net/url.
module _ (sanitize : Text → Text) where
  -- the checks of ClassifyNetworkError after those for the context's errors
  classify_transport : GoError → Classified
  unfolding as_first
  classify_transport e = elim (as_first (λ l. l.op_error) e) [
    | some (op, net) ↦
        verdict network true 0 (codes "network error: " ++ (op ++ (codes " " ++ net)))
    | none ↦ elim (as_first (λ l. l.dns_error) e) [
      | some name ↦ verdict network true 0 (codes "DNS error: " ++ name)
      | none ↦ elim (as_first (λ l. l.url_error) e) [
        | some (op, url, cause) ↦
            verdict network true 0 (
              codes "URL error: " ++ (op ++ (codes " " ++ (sanitize url ++ (codes ": " ++ cause)))))
        | none ↦
            if holds (as_first (λ l. l.timeout) e)
            then verdict network true 0 (codes "timeout")
            else unknown_verdict e
      ]
    ]
  ]

  -- ClassifyNetworkError
  unfoldable pub classify_network_error : GoError → Classified
  unfolding is_any classify_transport
  classify_network_error [] = nil_verdict
  classify_network_error (l ∷ ls) =
      if is_any (λ k. k.deadline) (l ∷ ls)
      then deadline_verdict
      else if is_any (λ k. k.canceled) (l ∷ ls)
      then canceled_verdict
      else classify_transport (l ∷ ls)

  -- ClassifyError once no link of the chain states a verdict
  unfoldable pub classify_generic : GoError → Classified
  unfolding is_any classify_network_error
  classify_generic e =
      if is_any (λ k. k.deadline) e
      then deadline_verdict
      else if is_any (λ k. k.canceled) e
      then canceled_verdict
      else if is_found (as_first (λ k. k.op_error) e)
          || (is_found (as_first (λ k. k.dns_error) e) || is_found (as_first (λ k. k.url_error) e))
      then classify_network_error e
      else unknown_verdict e

  -- ClassifyError
  unfoldable pub classify_error : GoError → Classified
  unfolding explicit_classification classify_generic
  classify_error [] = nil_verdict
  classify_error (l ∷ ls) = elim (explicit_classification (l ∷ ls)) [
    | some c ↦ c
    | none ↦ classify_generic (l ∷ ls)
  ]

  -- IsRetryable
  unfoldable pub is_retryable : GoError → Bool
  unfolding as_first is_any classify_error
  is_retryable [] = false
  is_retryable (l ∷ ls) = elim (as_first (λ k. k.classified) (l ∷ ls)) [
    | some c ↦ c.retryable
    | none ↦
        if is_any (λ k. k.deadline) (l ∷ ls)
        then true
        else if is_any (λ k. k.canceled) (l ∷ ls)
        then false
        else (classify_error (l ∷ ls)).retryable
  ]

-- GetErrorCategory
unfoldable pub get_error_category : GoError → Category
unfolding explicit_classification
get_error_category [] = unknown
get_error_category (l ∷ ls) = elim (explicit_classification (l ∷ ls)) [
  | some c ↦ c.category
  | none ↦ unknown
]

-- the switch of IsFatal
abbrev pub is_fatal_category : Category → Bool
is_fatal_category authentication = true
is_fatal_category validation = true
is_fatal_category not_found = true
is_fatal_category _ = false

-- IsFatal
unfoldable pub is_fatal : GoError → Bool
unfolding get_error_category
is_fatal [] = false
is_fatal (l ∷ ls) = is_fatal_category (get_error_category (l ∷ ls))
