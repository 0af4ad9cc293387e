-- ===== src/Filter/Condition/Strategies.antt =====
-- What the strategies skip and log do in the condition filter (internal/modules/filter/condition.go).
use cannectors.Prelude.{
  ℕ, ◌+◌, ◌≡◌, refl, ap, ◌∙◌, Bool, true, false, List, [], ◌∷◌, ◌++◌, Result, ok, err, if-cases,
}
use cannectors.Value.{Value, Fields}
use cannectors.ErrHandling.Marker.Record.{Strategy}
use cannectors.Filter.Condition.{
  ConditionError, Module, to_bool, continues, chain, nested_turn, run_nested_modules,
  process_condition_result, routed, prepend, gather, process_record, process_from, process,
}

-- a result, and not an error
abbrev pub HasResult : {S E : Type 0} → S × Result E (List Fields) → Type 0
HasResult {S} {E} p = (rs : List Fields) × (p.1 ≡ ok rs)

-- the records at which the expression has a value
unfoldable evaluated : {E : Type 0} → (Fields → Result E Value) → List Fields → List Fields
evaluated run [] = []
evaluated run (r ∷ rs) = elim (run r) [ ok v ↦ r ∷ evaluated run rs | err e ↦ evaluated run rs ]

module _ {S E : Type 0} (st : Strategy) (goes_on : continues st ≡ true) where
  chain-HasResult :
      (rest : S → List Fields → S × Result E (List Fields))
      → ((s : S) (rs : List Fields) → HasResult (rest s rs))
      → (s : S) (rs : List Fields) → HasResult (chain rest s rs)
  unfolding chain
  chain-HasResult rest h s [] = ([], refl)
  chain-HasResult rest h s (r ∷ rs) = h s (r ∷ rs)

  nested_turn-HasResult :
      (rest : S → List Fields → S × Result E (List Fields))
      → ((s : S) (rs : List Fields) → HasResult (rest s rs))
      → (p : S × List Fields × Result E (List Fields)) → HasResult (nested_turn st rest p)
  unfolding nested_turn
  nested_turn-HasResult rest h (s, left, ok rs) = chain-HasResult rest h s rs
  nested_turn-HasResult rest h (s, left, err e) =
      if-cases HasResult (continues st) _ _ (λ _. chain-HasResult rest h s left) (λ n. absurd cc)

  run_nested_modules-HasResult :
      (ms : List (Module S E)) (s : S) (rs : List Fields)
      → HasResult (run_nested_modules st ms s rs)
  unfolding run_nested_modules
  run_nested_modules-HasResult [] s rs = (rs, refl)
  run_nested_modules-HasResult (m ∷ ms) s rs =
      nested_turn-HasResult (run_nested_modules st ms) (run_nested_modules-HasResult ms) (m s rs)

  routed-HasResult : (p : S × Result E (List Fields)) → HasResult (routed st p)
  unfolding routed
  routed-HasResult (s, ok rs) = (rs, refl)
  routed-HasResult (s, err e) =
      if-cases HasResult (continues st) _ _ (λ _. ([], refl)) (λ n. absurd cc)

  prepend-HasResult :
      (xs : List Fields) (p : S × Result (ConditionError E) (List Fields))
      → HasResult p
      → HasResult (prepend xs p)
  unfolding prepend
  prepend-HasResult xs (s, ok ys) h = (xs ++ ys, refl)
  prepend-HasResult xs (s, err e) (ys, h) = absurd cc

  gather-HasResult :
      (p : S × Result (ConditionError E) (List Fields))
      (f : S → S × Result (ConditionError E) (List Fields))
      → HasResult p
      → ((s : S) → HasResult (f s))
      → HasResult (gather p f)
  unfolding gather
  gather-HasResult (s, ok xs) f h k = prepend-HasResult xs (f s) (k s)
  gather-HasResult (s, err e) f (ys, h) k = absurd cc

  module _ (run : Fields → Result E Value) (thens elses : List (Module S E)) where
    process_record-HasResult :
        (i : ℕ) (s : S) (r : Fields) (o : Result E Value)
        → HasResult (process_record run st thens elses i s r o)
    unfolding process_record
    process_record-HasResult i s r (ok v) = routed-HasResult _
    process_record-HasResult i s r (err e) =
        if-cases HasResult (continues st) _ _ (λ _. ([], refl)) (λ n. absurd cc)

    process_from-HasResult :
        (i : ℕ) (s : S) (rs : List Fields) → HasResult (process_from run st thens elses i s rs)
    unfolding process_from
    process_from-HasResult i s [] = ([], refl)
    process_from-HasResult i s (r ∷ rs) =
        gather-HasResult (process_record run st thens elses i s r (run r))
          (λ s'. process_from run st thens elses (i + 1) s' rs)
          (process_record-HasResult i s r (run r)) (λ s'. process_from-HasResult (i + 1) s' rs)

    -- With onError skip or log the filter has a result for every batch, whatever the evaluation of the
    -- condition and the nested modules do.
    pub process-HasResult : (s : S) (rs : List Fields) → HasResult (process run st thens elses s rs)
    unfolding process
    process-HasResult s rs = process_from-HasResult 0 s rs

  unbranched :
      (b : Bool) (s : S) (r : Fields)
      → process_condition_result {S = S} {E = E} st [] [] b s r ≡ (s, ok (r ∷ []))
  unfolding process_condition_result run_nested_modules
  unbranched true s r = refl
  unbranched false s r = refl

  module _ (run : Fields → Result E Value) where
    record-unbranched :
        (i : ℕ) (s : S) (r : Fields) (rs : List Fields) (o : Result E Value)
        (f : S → S × Result (ConditionError E) (List Fields))
        → f s ≡ (s, ok rs)
        → gather (process_record {S = S} run st [] [] i s r o) f
          ≡ (s, ok (elim o [ ok v ↦ r ∷ rs | err e ↦ rs ]))
    unfolding process_record routed gather prepend
    record-unbranched i s r rs (ok v) f h =
        ap (λ p. gather (routed st p) f) (unbranched (to_bool v) s r)
        ∙ ap (λ p. prepend (r ∷ []) p) h
    record-unbranched i s r rs (err e) f h =
        if-cases (λ p. gather p f ≡ (s, ok rs)) (continues st) _ _ (λ _. ap (λ p. prepend [] p) h)
          (λ n. absurd cc)

    process_from-unbranched :
        (i : ℕ) (s : S) (rs : List Fields)
        → process_from run st [] [] i s rs ≡ (s, ok (evaluated run rs))
    unfolding process_from process_record evaluated
    process_from-unbranched i s [] = refl
    process_from-unbranched i s (r ∷ rs) =
        record-unbranched i s r (evaluated run rs) (run r)
          (λ s'. process_from run st [] [] (i + 1) s' rs) (process_from-unbranched (i + 1) s rs)

    -- With onError skip or log and without nested modules the filter keeps the records at which the
    -- condition has a value, true or false, unchanged and in order; those at which it fails are dropped,
    -- also with log.
    process-unbranched :
        (s : S) (rs : List Fields) → process run st [] [] s rs ≡ (s, ok (evaluated run rs))
    unfolding process
    process-unbranched s rs = process_from-unbranched 0 s rs
