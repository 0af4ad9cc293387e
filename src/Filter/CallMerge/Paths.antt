-- ===== src/Filter/CallMerge/Paths.antt =====
-- The merge contract along the paths of keys (internal/modules/filter/call_merge.go: mergeCallResult), with a
-- description that has no merge in it.
use cannectors.Prelude.{
  ◌≡◌, refl, ap, ◌∙◌, Option, some, List, Text, same, if◌then◌else◌, Result, ok, err,
}
use cannectors.Value.{Value, array, object, nil, cons, Fields}
use cannectors.Value.Maps.{get}
use cannectors.Filter.CallMerge.{
  Strategy, merge, replace, append, MergeError, call_result_type, strategy_mismatch,
  merge_call_result,
}
use cannectors.Filter.CallMerge.Merged.{IsGoValue, IsGoMap, or_else}
use cannectors.Filter.CallMerge.Leaves.{value_at, Seen, seen, seen_merged, seen-merged, get-IsGoMap}
use cannectors.Filter.CallMerge.Contract.{promised, read, read-merge_call_result}

-- What is found under the key `k` and then along `ks`: with append the response under the key of the
-- contract; with replace the response's value where it has the key; with merge both, level by level; and
-- the record's where nothing of it is said.
abbrev pub promised_at :
    Strategy → Text → Value → Text → List Text → Option Value → Result MergeError Seen
promised_at append key (object m) k ks va =
    ok (seen (value_at ks (if same key k then some (object m) else va)))
promised_at append key (array a) k ks va =
    ok (seen (value_at ks (if same key k then some (array a) else va)))
promised_at merge key (object m) k ks va = ok (seen_merged ks va (get k m))
promised_at replace key (object m) k ks va = ok (seen (value_at ks (or_else va (get k m))))
promised_at merge key (array nil) k ks va = ok (seen (value_at ks va))
promised_at replace key (array nil) k ks va = ok (seen (value_at ks va))
promised_at merge key (array (cons v a)) k ks va = err strategy_mismatch
promised_at replace key (array (cons v a)) k ks va = err strategy_mismatch
promised_at s key v k ks va = err call_result_type

-- what a result has at a path
abbrev pub found : List Text → Result MergeError (Option Value) → Result MergeError Seen
found ks (ok o) = ok (seen (value_at ks o))
found ks (err e) = err e

found-promised :
    (s : Strategy) (key : Text) (v : Value) (k : Text) (ks : List Text) (r : Fields)
    → IsGoMap r
    → IsGoValue v
    → found ks (promised s key v k (get k r)) ≡ promised_at s key v k ks (get k r)
found-promised append key (object m) k ks r hr hv = refl
found-promised append key (array a) k ks r hr hv = refl
found-promised merge key (object m) k ks r hr hv =
    ap ok (seen-merged ks (get k r) (get k m) (get-IsGoMap k r hr) (get-IsGoMap k m hv))
found-promised replace key (object m) k ks r hr hv = refl
found-promised merge key (array nil) k ks r hr hv = refl
found-promised replace key (array nil) k ks r hr hv = refl
found-promised merge key (array (cons v a)) k ks r hr hv = refl
found-promised replace key (array (cons v a)) k ks r hr hv = refl
found-promised s key v k ks r hr hv = refl

-- Whatever the strategy and the response, folding it into a record puts at every path of keys what the
-- contract promises there, with merge level by level through nested objects, and fails exactly where the
-- contract has an error: a response that is neither an object nor a list, or a list with anything in it
-- and a strategy other than append. Neither the record nor the response has a key twice.
pub found-merge_call_result :
    (s : Strategy) (key : Text) (r : Fields) (v : Value)
    → IsGoMap r
    → IsGoValue v
    → (k : Text) (ks : List Text)
    → found ks (read k (merge_call_result s key r v)) ≡ promised_at s key v k ks (get k r)
found-merge_call_result s key r v hr hv k ks =
    ap (found ks) (read-merge_call_result s key r v hr hv k) ∙ found-promised s key v k ks r hr hv
