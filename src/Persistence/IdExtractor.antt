-- ===== src/Persistence/IdExtractor.antt =====
-- internal/persistence/id_extractor.go: the ID of the record received last.
use cannectors.Prelude.{ℕ, none, some, List, [], ◌∷◌, Text, Result, ok, err}
use cannectors.Prelude.Decimal.{itoa}
use cannectors.Value.{Value, int, float, text, object, Fields}
use cannectors.Value.Maps
use cannectors.RecordPath.Segment.{split}

pub data IdError : Type 0 where
  empty_field_path field_not_found invalid_field_type no_records : IdError

-- `format_float` prints a float64 in full and `format_any` is fmt.Sprintf("%v").
module _ (format_float : ℕ → Text) (format_any : Value → Text) where
  -- valueToString
  unfoldable pub value_to_string : Value → Text
  value_to_string (text t) = t
  value_to_string (float bits) = format_float bits
  value_to_string (int n) = itoa n
  value_to_string v = format_any v

  -- the loop of ExtractID over the segments
  unfoldable pub walk_fields : List Text → Value → Result IdError Value
  walk_fields [] v = ok v
  walk_fields (p ∷ ps) (object m) = elim (Maps.get p m) [
    | none ↦ err field_not_found
    | some v ↦ walk_fields ps v
  ]
  walk_fields (p ∷ ps) v = err invalid_field_type

  -- ExtractID
  unfoldable pub extract_id : Fields → Text → Result IdError Text
  unfolding walk_fields value_to_string
  extract_id r [] = err empty_field_path
  extract_id r (c ∷ s) = elim (walk_fields (split b'.' (c ∷ s)) (object r)) [
    | err e ↦ err e
    | ok v ↦ ok (value_to_string v)
  ]

  -- ExtractLastID
  unfoldable pub extract_last_id : List Fields → Text → Result IdError Text
  unfolding extract_id
  extract_last_id [] path = err no_records
  extract_last_id (r ∷ []) path = extract_id r path
  extract_last_id (r ∷ s ∷ rs) path = extract_last_id (s ∷ rs) path
