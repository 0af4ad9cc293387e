-- ===== src/Filter/CallMerge/Contract.antt =====
-- What the call filters make of a response (internal/modules/filter/call_merge.go: mergeCallResult and
-- resolveCallMergeContract).
use cannectors.Prelude.{
  ◌≡◌, ◌≢◌, refl, sym, ap, ◌∙◌, arith, true, false, Option, none, some, Text, same, same_iff, inl,
  inr, Bool-cases, if◌then◌else◌, Result, ok, err,
}
use cannectors.Prelude.Space.{trim_space}
use cannectors.Value.{Value, array, object, Items, nil, cons, Fields, end}
use cannectors.Value.Maps.{get, get-put}
use cannectors.ErrHandling.Marker.{record_errors_field}
use cannectors.ErrHandling.Marker.Target.{record_markers_of_field}
use cannectors.ErrHandling.Marker.Record.{
  record_markers, array_of, objects, validate_record_target, is_reserved_record_path,
}
use cannectors.RecordPath.Segment.{root}
use cannectors.Filter.CallMerge.{
  merge_value, Strategy, merge, replace, append, MergeError, call_result_type, strategy_mismatch,
  resolve_key, normalize_call_merge_strategy, resolve_call_merge_contract, copy_onto,
  clone_call_map, clone_call_list, deep_merge, append_under, merge_call_map, append_call_list,
  merge_call_result,
}
use cannectors.Filter.CallMerge.Merged.{
  IsGoValue, IsGoMap, merged, or_else, clone_call_map_same, clone_call_list_same, get-copy,
  get-copies, get-deep_merge,
}

-- The contract, on records as functions from keys to values: what a key with value `va` reads as once
-- the response is folded in.
abbrev pub promised :
    Strategy → Text → Value → Text → Option Value → Result MergeError (Option Value)
promised append result_key (object m) k va = ok (if same result_key k then some (object m) else va)
promised append result_key (array a) k va = ok (if same result_key k then some (array a) else va)
promised merge result_key (object m) k va = ok (merged va (get k m))
promised replace result_key (object m) k va = ok (or_else va (get k m))
promised merge result_key (array nil) k va = ok va
promised replace result_key (array nil) k va = ok va
promised merge result_key (array (cons v a)) k va = err strategy_mismatch
promised replace result_key (array (cons v a)) k va = err strategy_mismatch
promised s result_key v k va = err call_result_type

abbrev pub read : Text → Result MergeError Fields → Result MergeError (Option Value)
read k (ok r) = ok (get k r)
read k (err e) = err e

get-append_under :
    (k result_key : Text) (r : Fields) (v : Value)
    → IsGoMap r
    → get k (append_under result_key r v) ≡ (if same result_key k then some v else get k r)
unfolding append_under
get-append_under k result_key r v h = rw get-put (rw (get-copy k r h) refl)

-- Whatever the strategy and the response, merge_call_result does to each key of the record what the
-- contract promises, and fails exactly where the contract has an error.
pub read-merge_call_result :
    (s : Strategy) (result_key : Text) (r : Fields) (v : Value)
    → IsGoMap r
    → IsGoValue v
    → (k : Text) → read k (merge_call_result s result_key r v) ≡ promised s result_key v k (get k r)
unfolding merge_call_result merge_call_map append_call_list
read-merge_call_result append result_key r (object m) hr hv k =
    ap ok (get-append_under k result_key r (object (clone_call_map m)) hr)
    ∙ ap (λ x. ok (if same result_key k then some (object x) else get k r))
        (clone_call_map_same m hv)
read-merge_call_result append result_key r (array a) hr hv k =
    ap ok (get-append_under k result_key r (array (clone_call_list a)) hr)
    ∙ ap (λ x. ok (if same result_key k then some (array x) else get k r))
        (clone_call_list_same a hv)
read-merge_call_result merge result_key r (object m) hr hv k =
    ap (λ x. ok (get k (deep_merge r x))) (clone_call_map_same m hv)
    ∙ ap ok (get-deep_merge k r m hr hv)
read-merge_call_result replace result_key r (object m) hr hv k =
    ap (λ x. ok (get k (copy_onto (copy_onto end r) x))) (clone_call_map_same m hv)
    ∙ ap ok (get-copies k r m hr hv)
read-merge_call_result merge result_key r (array nil) hr hv k = refl
read-merge_call_result replace result_key r (array nil) hr hv k = refl
read-merge_call_result merge result_key r (array (cons v a)) hr hv k = refl
read-merge_call_result replace result_key r (array (cons v a)) hr hv k = refl
read-merge_call_result s result_key r v hr hv k = refl

not_accepted : validate_record_target record_errors_field ≢ true
unfolding validate_record_target is_reserved_record_path root same
not_accepted h = absurd cc

accepted_key :
    (key : Text) → validate_record_target key ≡ true → same key record_errors_field ≡ false
accepted_key key h = elim (Bool-cases (same key record_errors_field)) [
  | inl e ↦
      let eq : key ≡ record_errors_field = (same_iff key record_errors_field).0 e in
      absurd (not_accepted (ap validate_record_target (sym eq) ∙ h))
  | inr e ↦ e
]

resolve_key-accepts :
    (s : Strategy) (key : Text) (s' : Strategy) (key' : Text)
    → resolve_key s key ≡ ok (s', key')
    → (validate_record_target key' ≡ true)
unfolding resolve_key
resolve_key-accepts append key s' key' h = ground (arith, h)
resolve_key-accepts merge key s' key' h = ground (arith, h)
resolve_key-accepts replace key s' key' h = ground (arith, h)

resolved_key :
    (strategy result_key : Text) (s : Strategy) (key : Text)
    → resolve_call_merge_contract strategy result_key ≡ ok (s, key)
    → validate_record_target key ≡ true
unfolding resolve_call_merge_contract
resolved_key strategy result_key s key h = go (normalize_call_merge_strategy strategy) h
  where
    go :
        (n : Result MergeError Strategy)
        → (elim n as (λ x. Result MergeError (Strategy × Text)) [
          | err e ↦ err e
          | ok t ↦ resolve_key t (trim_space result_key)
        ])
          ≡ ok (s, key)
        → validate_record_target key ≡ true
    go (err e) g = absurd cc
    go (ok t) g = resolve_key-accepts t (trim_space result_key) s key g

-- what of the response would land on the reserved key
abbrev pub KeepsReserved : Strategy → Value → Type 0
KeepsReserved append v = Unit
KeepsReserved s (object m) = get record_errors_field m ≡ none
KeepsReserved s v = Unit

promised_keeps :
    (s : Strategy) (key : Text) (v : Value) (va x : Option Value)
    → same key record_errors_field ≡ false
    → KeepsReserved s v
    → promised s key v record_errors_field va ≡ ok x
    → x ≡ va
promised_keeps append key (object m) va x apart keeps h = ground (arith, apart, h)
promised_keeps append key (array a) va x apart keeps h = ground (arith, apart, h)
promised_keeps merge key (object m) va x apart keeps h = ground (arith, keeps, h)
promised_keeps replace key (object m) va x apart keeps h = ground (arith, keeps, h)
promised_keeps merge key (array nil) va x apart keeps h = cc
promised_keeps replace key (array nil) va x apart keeps h = cc
promised_keeps merge key (array (cons v a)) va x apart keeps h = absurd cc
promised_keeps replace key (array (cons v a)) va x apart keeps h = absurd cc
promised_keeps s key v va x apart keeps h = absurd cc

-- Under a resolved contract, folding a response into a record leaves its error markers as they are,
-- provided that, with merge and replace, the response itself has no key `_errors`.
pub record_markers-merge_call_result :
    (strategy result_key : Text) (s : Strategy) (key : Text) (r r' : Fields) (v : Value)
    → resolve_call_merge_contract strategy result_key ≡ ok (s, key)
    → IsGoMap r
    → IsGoValue v
    → KeepsReserved s v
    → merge_call_result s key r v ≡ ok r'
    → record_markers r' ≡ record_markers r
record_markers-merge_call_result strategy result_key s key r r' v resolved hr hv keeps h =
    record_markers_of_field r r' (
      promised_keeps s key v (get record_errors_field r) (get record_errors_field r')
        (accepted_key key (resolved_key strategy result_key s key resolved)) keeps
        (sym (read-merge_call_result s key r v hr hv record_errors_field)
          ∙ ap (read record_errors_field) h))

of_read :
    (o : Result MergeError Fields) (k : Text) (x : Option Value)
    → read k o ≡ ok x
    → (r' : Fields) × (o ≡ ok r') × (get k r' ≡ x)
of_read (ok r') k x h = (r', refl, cc)
of_read (err e) k x h = absurd cc

promised_overwritten :
    (s : Strategy) (key : Text) (m : Fields) (k : Text) (va : Option Value) (a : Items)
    → s ≢ append
    → get k m ≡ some (array a)
    → promised s key (object m) k va ≡ ok (some (array a))
unfolding merge_value
promised_overwritten append key m k va a other e = absurd (other refl)
promised_overwritten merge key m k va a other e = rw e refl
promised_overwritten replace key m k va a other e = rw e refl

-- With merge and replace, a response that has a list under `_errors` puts that list in the place of the
-- error markers that the record had.
pub merge_call_result_overwrites_markers :
    (s : Strategy) (key : Text) (r : Fields) (m : Fields) (a : Items)
    → s ≢ append
    → IsGoMap r
    → IsGoMap m
    → get record_errors_field m ≡ some (array a)
    → (r' : Fields) × (merge_call_result s key r (object m) ≡ ok r')
      × (record_markers r' ≡ objects a)
unfolding record_markers
merge_call_result_overwrites_markers s key r m a other hr hm e =
    let (r', answer, there) =
      of_read (merge_call_result s key r (object m)) record_errors_field (some (array a)) (
        read-merge_call_result s key r (object m) hr hm record_errors_field
        ∙ promised_overwritten s key m record_errors_field (get record_errors_field r) a other e) in
    (r', answer, ap (λ v. objects (array_of v)) there)
