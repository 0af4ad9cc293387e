-- ===== src/Tests/Conditions.antt =====
-- A condition on the field "ok" with a nested module that counts its calls and fails at the second
-- (internal/modules/filter/condition.go).
use cannectors.Prelude.{
  ℕ, ◌+◌, ◌==◌, ◌≡◌, refl, Bool, true, false, Option, none, some, List, [], ◌∷◌, ◌++◌, length, Text,
  codes, Result, ok, err, if◌then◌else◌,
}
use cannectors.Value.{Value, bool, Fields, end, field}
use cannectors.Value.Maps.{get}
use cannectors.ErrHandling.Marker.Record.{fail, log}
use cannectors.Filter.Condition.{
  ConditionError, Module, evaluation_failed, nested, process_from, process,
}
use cannectors.Filter.Condition.Batches.{joined, process-append}
use cannectors.Filter.Condition.Strategies.{HasResult, process-HasResult}
use cannectors.Filter.Condition.Routing.{all_hold, process_else_unused}

abbrev field_of : Option Value → Result Text Value
field_of none = err (codes "no field")
field_of (some v) = ok v

abbrev run_ok : Fields → Result Text Value
run_ok r = field_of (get (codes "ok") r)

abbrev second_fails : Module ℕ Text
second_fails n rs = (n + 1, rs, if n == 1 then err (codes "again") else ok rs)

abbrev drop_all : Module ℕ Text
drop_all n rs = (n, rs, ok [])

abbrev yes : Fields
yes = field (codes "ok") (bool true) end

abbrev no : Fields
no = field (codes "ok") (bool false) end

stops_at_second :
    process run_ok fail (second_fails ∷ []) (drop_all ∷ []) 0 (yes ∷ no ∷ yes ∷ yes ∷ [])
    ≡ (2, err (nested (codes "again")))
unfolding process get cannectors.Prelude.same
stops_at_second = refl

drops_without_field :
    process run_ok log (second_fails ∷ []) (drop_all ∷ []) 0 (yes ∷ end ∷ no ∷ yes ∷ [])
    ≡ (2, ok (yes ∷ yes ∷ []))
unfolding process get cannectors.Prelude.same
drops_without_field = refl

process-append_example :
    process run_ok fail (second_fails ∷ []) [] 0 ((yes ∷ no ∷ []) ++ (yes ∷ []))
    ≡ joined
        (process run_ok fail (second_fails ∷ []) [] 0 (yes ∷ no ∷ []))
        (λ n. process_from run_ok fail (second_fails ∷ []) [] 2 n (yes ∷ []))
process-append_example =
    process-append run_ok fail (second_fails ∷ []) [] 0 (yes ∷ no ∷ []) (yes ∷ [])

process-HasResult_example :
    HasResult (process run_ok log (second_fails ∷ []) [] 0 (yes ∷ end ∷ yes ∷ []))
unfolding cannectors.Filter.Condition.continues
process-HasResult_example =
    process-HasResult log refl run_ok (second_fails ∷ []) [] 0 (yes ∷ end ∷ yes ∷ [])

process_else_unused_example :
    process run_ok fail (second_fails ∷ []) [] 0 (yes ∷ yes ∷ [])
    ≡ process run_ok fail (second_fails ∷ []) (drop_all ∷ []) 0 (yes ∷ yes ∷ [])
unfolding all_hold get cannectors.Prelude.same
process_else_unused_example =
    process_else_unused run_ok fail (second_fails ∷ []) [] (drop_all ∷ []) 0 (yes ∷ yes ∷ []) refl
