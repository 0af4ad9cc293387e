-- ===== src/Tests/Merges.antt =====
-- Call results folded into records (internal/modules/filter/call_merge.go).
use cannectors.Prelude.{
  ◌≡◌, refl, inl, inr, Option, none, some, List, [], ◌∷◌, Text, codes, Result, ok, err, map,
}
use cannectors.Value.{text, array, object, nil, cons, Fields, end, field}
use cannectors.Value.Maps.{get}
use cannectors.ErrHandling.Marker.Record.{record_markers, objects}
use cannectors.Filter.CallMerge.{
  merge, append, result_key_required, reserved_target, resolve_call_merge_contract, deep_merge,
  merge_call_result,
}
use cannectors.Filter.CallMerge.Merged.{IsGoMap}
use cannectors.Filter.CallMerge.Paths.{promised_at, found, found-merge_call_result}
use cannectors.Filter.CallMerge.Contract.{
  read, record_markers-merge_call_result, merge_call_result_overwrites_markers,
}

-- a record with a marker and a customer, and a response about the customer
abbrev customer : Fields
customer =
    field (codes "name") (text (codes "Ann")) (field (codes "city") (text (codes "Rome")) end)

abbrev order : Fields
order =
    field (codes "_errors") (array (cons (object end) nil))
      (field (codes "customer") (object customer) end)

abbrev answer : Fields
answer = field (codes "customer") (object (field (codes "city") (text (codes "Bari")) end)) end

abbrev hostile : Fields
hostile = field (codes "_errors") (array nil) end

order-IsGoMap : IsGoMap order
unfolding get cannectors.Prelude.same
order-IsGoMap = (refl, (tt, tt), (refl, (refl, tt, (refl, tt, tt)), tt))

answer-IsGoMap : IsGoMap answer
unfolding get cannectors.Prelude.same
answer-IsGoMap = (refl, (refl, tt, tt), tt)

resolved :
    resolve_call_merge_contract (codes "append") (codes " extra ") ≡ ok (append, codes "extra")
unfolding resolve_call_merge_contract
resolved = refl

no_key : resolve_call_merge_contract (codes "append") (codes "  ") ≡ err result_key_required
unfolding resolve_call_merge_contract
no_key = refl

reserved : resolve_call_merge_contract (codes "") (codes "_errors[0]") ≡ err reserved_target
unfolding resolve_call_merge_contract
reserved = refl

found-merge_call_result_example :
    found
      (codes "name" ∷ [])
      (read (codes "customer") (merge_call_result merge [] order (object answer)))
    ≡ promised_at merge []
        (object answer)
        (codes "customer")
        (codes "name" ∷ [])
        (get (codes "customer") order)
found-merge_call_result_example =
    found-merge_call_result merge [] order (object answer) order-IsGoMap answer-IsGoMap
      (codes "customer") (codes "name" ∷ [])

record_markers-merge_call_result_example :
    record_markers (deep_merge order answer) ≡ record_markers order
unfolding resolve_call_merge_contract get merge_call_result
record_markers-merge_call_result_example =
    record_markers-merge_call_result (codes "") (codes "") merge (codes "") order
      (deep_merge order answer) (object answer) refl order-IsGoMap answer-IsGoMap refl refl

merge_call_result_overwrites_markers_example :
    (r' : Fields) × (merge_call_result merge (codes "") order (object hostile) ≡ ok r')
    × (record_markers r' ≡ objects nil)
unfolding get cannectors.Prelude.same
merge_call_result_overwrites_markers_example =
    merge_call_result_overwrites_markers merge (codes "") order hostile nil (λ e. absurd cc)
      order-IsGoMap (refl, tt, tt) refl
