-- ===== src/ErrHandling/Marker/Reclassify.antt =====
-- What the overrides of a module do to a verdict (internal/errhandling/marker.go, apply).
use cannectors.Prelude.{ℕ, ◌≡◌, ◌≢◌, Bool, true, false, arith, List, [], ◌∷◌, refl}
use cannectors.ErrHandling.Classify.{Category, unknown}
use cannectors.ErrHandling.Marker.{Overrides, contains, is_empty_list, is_technical, apply}

contains-not_empty : (l : List ℕ) (s : ℕ) → contains l s ≡ true → is_empty_list l ≡ false
unfolding contains
contains-not_empty [] s h = cc
contains-not_empty (c ∷ cs) s h = refl

module _ (o : Overrides) (s : ℕ) (category : Category) (retryable : Bool) where
  -- A status code listed as functional is not retryable and has no technical category, also where
  -- it is listed as technical; a category that says more than `unknown` and is not technical stays.
  pub apply_functional :
      s ≢ 0
      → contains o.functional s ≡ true
      → ((apply o s category retryable).1 ≡ false)
        × (is_technical (apply o s category retryable).0 ≡ false)
        × (is_technical category ≡ false
            → category ≢ unknown
            → (apply o s category retryable).0 ≡ category)
  unfolding apply
  apply_functional h f = ground (arith, contains-not_empty o.functional s f)

  -- A status code listed only as technical is retryable and has a technical category, the one it
  -- had if that was technical.
  pub apply_technical :
      s ≢ 0
      → contains o.functional s ≡ false
      → contains o.technical s ≡ true
      → ((apply o s category retryable).1 ≡ true)
        × (is_technical (apply o s category retryable).0 ≡ true)
        × (is_technical category ≡ true → (apply o s category retryable).0 ≡ category)
  unfolding apply
  apply_technical h f t = ground (arith, contains-not_empty o.technical s t)
