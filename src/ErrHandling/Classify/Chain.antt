-- ===== src/ErrHandling/Classify/Chain.antt =====
-- The two readings of an error's retryability, over every chain (internal/errhandling/errors.go).
use cannectors.Prelude.{
  ◌≡◌, refl, Bool, true, false, ◌||◌, Option, none, some, [], ◌∷◌, Text, arith, ◌⊎◌,
}
use cannectors.ErrHandling.Classify.{
  Classified, GoError, as_first, is_any, classify_from_chain, explicit_classification,
  classify_error, classify_generic, is_retryable, classify_network_error, is_fatal,
  is_fatal_category,
}

abbrev pub stated : GoError → Option Classified
stated = as_first (λ l. l.classified)

abbrev pub has_deadline : GoError → Bool
has_deadline = is_any (λ l. l.deadline)

abbrev pub has_canceled : GoError → Bool
has_canceled = is_any (λ l. l.canceled)

module _ (sanitize : Text → Text) where
  -- `IsRetryable` says what `ClassifyError` says of the same error, unless a typed module error in
  -- the chain classifies itself while the chain also carries a context deadline or cancellation.
  pub is_retryable-classify_error :
      (e : GoError)
      → (classify_from_chain e ≡ none) ⊎ ((has_deadline e || has_canceled e) ≡ false)
      → is_retryable sanitize e ≡ (classify_error sanitize e).retryable
  unfolding is_retryable explicit_classification classify_generic
  is_retryable-classify_error [] h = refl
  is_retryable-classify_error (l ∷ ls) h = ground arith

  -- A typed module error that states a permanent failure, in a chain that also carries a deadline:
  -- `ClassifyError` reports it as not retryable and `IsRetryable` as retryable.
  pub is_retryable_ignores_module_verdict :
      (e : GoError) (c : Classified)
      → stated e ≡ none
      → classify_from_chain e ≡ some c
      → has_deadline e ≡ true
      → c.retryable ≡ false
      → (is_retryable sanitize e ≡ true) × ((classify_error sanitize e).retryable ≡ false)
  unfolding is_retryable explicit_classification classify_generic
  is_retryable_ignores_module_verdict [] c s m d r = (unfold is_any in cc, unfold is_any in cc)
  is_retryable_ignores_module_verdict (l ∷ ls) c s m d r = ground arith

  -- An error is fatal exactly when the category that `ClassifyError` gives it is a fatal one: the
  -- generic rules never give such a category.
  pub is_fatal-classify_error :
      (e : GoError) → is_fatal e ≡ is_fatal_category (classify_error sanitize e).category
  unfolding is_fatal classify_error classify_network_error explicit_classification classify_generic
  is_fatal-classify_error [] = refl
  is_fatal-classify_error (l ∷ ls) = ground arith
