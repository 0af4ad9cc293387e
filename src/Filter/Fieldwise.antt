-- ===== src/Filter/Fieldwise.antt =====
-- The filters that change fields of each record: internal/modules/filter/set.go, remove.go, drop.go.
use cannectors.Prelude.{
  ℕ, ◌+◌, Bool, false, not, Option, none, some, List, [], ◌∷◌, Text, Result, ok, err, same,
  is_blank, ◌||◌, if◌then◌else◌,
}
use cannectors.Value.{Value, text, array, Items, nil, cons, Fields}
use cannectors.Value.Maps
use cannectors.RecordPath.Access
use cannectors.RecordPath.Access.{Error, is_nested}
use cannectors.ErrHandling.Marker.Record.{validate_record_target, parse_on_error_strategy}
use cannectors.Filter.Batch.{Failure, canceled, process}

-- SetConfig; `value` is `none` where the key is absent.
pub record SetConfig : Type 0 where
  pub on_error : Text
  pub target : Text
  pub value : Option Value

-- SetModule
pub record SetModule : Type 0 where
  pub target : Text
  pub value : Value

pub data ConfigError : Type 0 where
  target_required value_required reserved_target bad_on_error : ConfigError
  target_entry_empty : ℕ → ConfigError
  target_entry_not_text : ℕ → ConfigError
  target_not_text : ConfigError

-- NewSetFromConfig
unfoldable pub new_set_from_config : SetConfig → Result ConfigError SetModule
unfolding validate_record_target parse_on_error_strategy
new_set_from_config c = if is_blank c.target then err target_required else elim c.value [
  | none ↦ err value_required
  | some v ↦
      if not (validate_record_target c.target)
      then err reserved_target
      else elim (parse_on_error_strategy c.on_error) [
        | err e ↦ err bad_on_error
        | ok s ↦ ok (record { target = c.target; value = v })
      ]
]

-- (*SetModule).processRecord
unfoldable pub set_record : SetModule → Fields → Result Error Fields
unfolding is_nested
set_record m r =
    if not (is_nested m.target)
    then ok (Maps.put m.target m.value r)
    else (let (r', e) = Access.set r m.target m.value in elim e [ none ↦ ok r' | some x ↦ err x ])

-- (*SetModule).Process
unfoldable pub set_process :
    (ℕ → Bool) → SetModule → List Fields → Result (Failure Error) (List Fields)
unfolding process set_record
set_process done m = process done (set_record m)

-- (*RemoveModule).processRecord
unfoldable pub remove_target : Text → Fields → Fields
unfolding is_nested
remove_target target r =
    if not (is_nested target) then Maps.remove target r else Access.delete r target

unfoldable pub remove_record : List Text → Fields → Fields
unfolding remove_target
remove_record [] r = r
remove_record (t ∷ ts) r = remove_record ts (remove_target t r)

-- (*RemoveModule).Process
unfoldable pub remove_process :
    (ℕ → Bool) → List Text → List Fields → Result (Failure Error) (List Fields)
unfolding process remove_record
remove_process done targets = process done (λ r. ok (remove_record targets r))

-- the entries of a list of targets, each a text that is not empty
unfoldable pub target_entries : ℕ → Items → Result ConfigError (List Text)
target_entries i nil = ok []
target_entries i (cons (text t) a) =
    let rest = target_entries (i + 1) a in
    if is_blank t
    then err (target_entry_empty i)
    else elim rest [ err e ↦ err e | ok ts ↦ ok (t ∷ ts) ]
target_entries i (cons v a) = err (target_entry_not_text i)

-- normalizeRemoveTarget on a decoded value
unfoldable pub normalize_remove_target : Value → Result ConfigError (List Text)
unfolding target_entries
normalize_remove_target Value.null = err target_required
normalize_remove_target (text t) = if is_blank t then err target_required else ok (t ∷ [])
normalize_remove_target (array nil) = err target_required
normalize_remove_target (array (cons v a)) = target_entries 0 (cons v a)
normalize_remove_target _ = err target_not_text

unfoldable pub seen_in : List Text → Text → Bool
seen_in [] t = false
seen_in (s ∷ ss) t = let rest = seen_in ss t in same s t || rest

-- the loop of NewRemoveFromConfig that keeps the first of equal targets
unfoldable pub unique_from : List Text → List Text → List Text
unfolding seen_in
unique_from seen [] = []
unique_from seen (t ∷ ts) =
    let kept = t ∷ unique_from (t ∷ seen) ts in
    let dropped = unique_from seen ts in if seen_in seen t then dropped else kept

-- NewRemoveFromConfig, from the decoded target
unfoldable pub new_remove_from_config : Text → Value → Result ConfigError (List Text)
unfolding normalize_remove_target unique_from parse_on_error_strategy
new_remove_from_config on_error target = elim (parse_on_error_strategy on_error) [
  | err e ↦ err bad_on_error
  | ok s ↦ elim (normalize_remove_target target) [ err e ↦ err e | ok ts ↦ ok (unique_from [] ts) ]
]

-- (*DropModule).Process
unfoldable pub drop_process : Bool → List Fields → Result (Failure Error) (List Fields)
drop_process is_done rs = if is_done then err canceled else ok []
