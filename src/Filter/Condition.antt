-- ===== src/Filter/Condition.antt =====
-- The condition filter (internal/modules/filter/condition.go): which records go through which nested
-- modules, and what its strategy onError does with failures. A nested module may change the records that it
-- is given and a state of its own, here explicit; a failure is told by the error's text alone. A run of
-- expr is a parameter, the compiled program of the expression.
pub mod Batches
pub mod Strategies
pub mod Routing
use cannectors.Prelude.{
  ℕ, zero, suc, ◌+◌, ◌%◌, ◌^◌, Bool, true, false, not, Option, none, some, List, [], ◌∷◌, ◌++◌,
  Text, is_blank, ◌==◌, Result, ok, err, if◌then◌else◌,
}
use cannectors.Prelude.Int.{ℤ, pos, negsuc}
use cannectors.Value.{
  Value, null, bool, int, float, text, array, object, Items, nil, cons, Fields, end, field,
}
use cannectors.ErrHandling.Marker.Record.{Strategy, fail, skip, log, other}

-- toBool; a float64 is zero when all bits but its sign are.
unfoldable pub to_bool : Value → Bool
to_bool null = false
to_bool (bool b) = b
to_bool (int (pos n)) = not (n == 0)
to_bool (int (negsuc n)) = true
to_bool (float f) = not ((f % (2 ^ 63)) == 0)
to_bool (text s) = not (is_blank s)
to_bool (array nil) = false
to_bool (array (cons v a)) = true
to_bool (object end) = false
to_bool (object (field k v m)) = true

-- handleError and handleNestedModuleError return nil
unfoldable pub continues : Strategy → Bool
continues fail = false
continues skip = true
continues log = true
continues (other s) = false

-- The error that ends a batch: of the evaluation of a record, with its position, or of a nested module.
pub data ConditionError (E : Type 0) : Type 0 where
  evaluation_failed : ℕ → E → ConditionError E
  nested : E → ConditionError E

-- A Process: what becomes of the state and of the records that it is given, and its result.
abbrev pub Module : Type 0 → Type 0 → Type 0
Module S E = S → List Fields → S × List Fields × Result E (List Fields)

module _ {S E : Type 0} where
  -- the rest of the chain, unless no records are left
  unfoldable pub chain :
      (S → List Fields → S × Result E (List Fields)) → S → List Fields → S × Result E (List Fields)
  chain rest s [] = (s, ok [])
  chain rest s (r ∷ rs) = rest s (r ∷ rs)

  -- one pass of the loop: after a failure the chain goes on with the records as the module left them
  unfoldable pub nested_turn :
      Strategy
      → (S → List Fields → S × Result E (List Fields))
      → S × List Fields × Result E (List Fields)
      → S × Result E (List Fields)
  unfolding continues chain
  nested_turn st rest (s, left, ok rs) = chain rest s rs
  nested_turn st rest (s, left, err e) = if continues st then chain rest s left else (s, err e)

  -- runNestedModules
  unfoldable pub run_nested_modules :
      Strategy → List (Module S E) → S → List Fields → S × Result E (List Fields)
  unfolding nested_turn
  run_nested_modules st [] s rs = (s, ok rs)
  run_nested_modules st (m ∷ ms) s rs = nested_turn st (run_nested_modules st ms) (m s rs)

  -- processConditionResult
  unfoldable pub process_condition_result :
      Strategy
      → List (Module S E)
      → List (Module S E)
      → Bool
      → S
      → Fields
      → S × Result E (List Fields)
  unfolding run_nested_modules
  process_condition_result st thens elses true s r = run_nested_modules st thens s (r ∷ [])
  process_condition_result st thens elses false s r = run_nested_modules st elses s (r ∷ [])

  -- the part of one record, where the batch goes on
  unfoldable pub routed :
      Strategy → S × Result E (List Fields) → S × Result (ConditionError E) (List Fields)
  unfolding continues
  routed st (s, ok rs) = (s, ok rs)
  routed st (s, err e) = if continues st then (s, ok []) else (s, err (nested e))

  -- append(result, processedRecords...)
  unfoldable pub prepend :
      List Fields
      → S × Result (ConditionError E) (List Fields)
      → S × Result (ConditionError E) (List Fields)
  prepend rs (s, ok rs') = (s, ok (rs ++ rs'))
  prepend rs (s, err e) = (s, err e)

  unfoldable pub gather :
      S × Result (ConditionError E) (List Fields)
      → (S → S × Result (ConditionError E) (List Fields))
      → S × Result (ConditionError E) (List Fields)
  unfolding prepend
  gather (s, err e) rest = (s, err e)
  gather (s, ok rs) rest = prepend rs (rest s)

  module _ (run : Fields → Result E Value) (st : Strategy) (thens elses : List (Module S E)) where
    -- one record, with what its evaluation gave
    unfoldable pub process_record :
        ℕ → S → Fields → Result E Value → S × Result (ConditionError E) (List Fields)
    unfolding continues routed to_bool process_condition_result
    process_record i s r (ok v) =
        routed st (process_condition_result st thens elses (to_bool v) s r)
    process_record i s r (err e) =
        if continues st then (s, ok []) else (s, err (evaluation_failed i e))

    -- the loop of Process from position `i` on
    unfoldable pub process_from : ℕ → S → List Fields → S × Result (ConditionError E) (List Fields)
    unfolding process_record gather
    process_from i s [] = (s, ok [])
    process_from i s (r ∷ rs) =
        gather (process_record i s r (run r)) (λ s'. process_from (i + 1) s' rs)

    -- Process
    unfoldable pub process : S → List Fields → S × Result (ConditionError E) (List Fields)
    unfolding process_from
    process s rs = process_from 0 s rs
