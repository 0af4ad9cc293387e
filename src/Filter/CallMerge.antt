-- ===== src/Filter/CallMerge.antt =====
-- The merge contract that the call filters share (internal/modules/filter/call_merge.go). A map is
-- copied or merged key by key, from the first one on; Go's `range` visits them in any order.
-- That a clone shares no container with its original is not stated: values are not shared here.
pub mod Merged
pub mod Leaves
pub mod Contract
pub mod Paths
use cannectors.Prelude.{
  Bool, true, false, not, ◌&&◌, Option, none, some, Text, codes, same, is_blank, if◌then◌else◌,
  Result, ok, err,
}
use cannectors.Prelude.Space.{trim_space}
use cannectors.Value.{
  Value, null, bool, int, float, text, array, object, Items, nil, cons, Fields, end, field,
}
use cannectors.Value.Maps.{get, put}
use cannectors.ErrHandling.Marker.Record.{validate_record_target}

-- mergeStrategyMerge, mergeStrategyReplace, mergeStrategyAppend
pub data Strategy : Type 0 where
  merge replace append : Strategy

-- the failures: of the configuration, then the sentinels of a call
pub data MergeError : Type 0 where
  invalid_strategy result_key_required reserved_target call_result_type strategy_mismatch :
      MergeError

-- normalizeCallMergeStrategy
unfoldable pub normalize_call_merge_strategy : Text → Result MergeError Strategy
unfolding same
normalize_call_merge_strategy s =
    if is_blank s
    then ok merge
    else if same s (codes "merge")
    then ok merge
    else if same s (codes "replace")
    then ok replace
    else if same s (codes "append")
    then ok append
    else err invalid_strategy

-- resolveCallMergeContract, once the strategy is normalized and the key trimmed
unfoldable pub resolve_key : Strategy → Text → Result MergeError (Strategy × Text)
unfolding validate_record_target
resolve_key append key =
    if is_blank key
    then err result_key_required
    else if not (validate_record_target key)
    then err reserved_target
    else ok (append, key)
resolve_key s key = if not (validate_record_target key) then err reserved_target else ok (s, key)

-- resolveCallMergeContract
unfoldable pub resolve_call_merge_contract : Text → Text → Result MergeError (Strategy × Text)
unfolding normalize_call_merge_strategy resolve_key trim_space
resolve_call_merge_contract strategy result_key = elim (normalize_call_merge_strategy strategy) [
  | err e ↦ err e
  | ok s ↦ resolve_key s (trim_space result_key)
]

-- for k, v := range m { result[k] = v }
unfoldable pub copy_onto : Fields → Fields → Fields
unfolding put
copy_onto result end = result
copy_onto result (field k v m) = copy_onto (put k v result) m

-- cloneCallData, the loop of cloneCallMap, and cloneCallList
unfoldable mutual
  unfolding put

  pub clone_call_data : Value → Value
  clone_call_data (object m) = object (clone_onto end m)
  clone_call_data (array a) = array (clone_call_list a)
  clone_call_data null = null
  clone_call_data (bool b) = bool b
  clone_call_data (int z) = int z
  clone_call_data (float f) = float f
  clone_call_data (text s) = text s

  pub clone_onto : Fields → Fields → Fields
  clone_onto clone end = clone
  clone_onto clone (field k v m) = clone_onto (put k (clone_call_data v) clone) m

  pub clone_call_list : Items → Items
  clone_call_list nil = nil
  clone_call_list (cons v a) = cons (clone_call_data v) (clone_call_list a)

-- cloneCallMap
unfoldable pub clone_call_map : Fields → Fields
unfolding clone_onto
clone_call_map m = clone_onto end m

-- the loop of deepMerge over `b`, and the value that it stores under a key
unfoldable mutual
  unfolding put get copy_onto

  pub merge_onto : Fields → Fields → Fields
  merge_onto result end = result
  merge_onto result (field k vb b) = merge_onto (put k (merge_value vb (get k result)) result) b

  pub merge_value : Value → Option Value → Value
  merge_value (object map_b) (some (object map_a)) = object (merge_onto (copy_onto end map_a) map_b)
  merge_value vb va = vb

-- deepMerge
unfoldable pub deep_merge : Fields → Fields → Fields
unfolding merge_onto copy_onto
deep_merge a b = merge_onto (copy_onto end a) b

-- appendUnder
unfoldable pub append_under : Text → Fields → Value → Fields
unfolding put copy_onto
append_under result_key r v = put result_key v (copy_onto end r)

-- mergeCallMap
unfoldable pub merge_call_map : Strategy → Text → Fields → Fields → Fields
unfolding clone_call_map copy_onto append_under deep_merge
merge_call_map replace result_key r response = copy_onto (copy_onto end r) (clone_call_map response)
merge_call_map append result_key r response =
    append_under result_key r (object (clone_call_map response))
merge_call_map merge result_key r response = deep_merge r (clone_call_map response)

-- appendCallList
unfoldable pub append_call_list : Strategy → Text → Fields → Items → Result MergeError Fields
unfolding append_under clone_call_list
append_call_list append result_key r items =
    ok (append_under result_key r (array (clone_call_list items)))
append_call_list s result_key r nil = ok r
append_call_list s result_key r (cons v a) = err strategy_mismatch

-- mergeCallResult
unfoldable pub merge_call_result : Strategy → Text → Fields → Value → Result MergeError Fields
unfolding merge_call_map append_call_list
merge_call_result s result_key r (object m) = ok (merge_call_map s result_key r m)
merge_call_result s result_key r (array a) = append_call_list s result_key r a
merge_call_result s result_key r v = err call_result_type
