-- ===== src/Input/Response.antt =====
-- What the httpPolling input finds in a response (internal/modules/input/http_polling_pagination.go:
-- resolvePath, extractIntField, extractStringField, extractRecordsFromObject; http_polling.go:
-- extractDataFromField, convertToRecords).
use cannectors.Prelude.{
  ℕ, Bool, not, Option, none, some, List, [], ◌∷◌, Text, codes, is_blank, if◌then◌else◌, Result, ok,
  err,
}
use cannectors.Prelude.Int.{ℤ, pos}
use cannectors.Value.{Value, float, text, array, object, Items, nil, cons, Fields}
use cannectors.Value.Maps.{get}
use cannectors.RecordPath.Segment.{split}

pub data PagingError : Type 0 where
  unknown_type bad_url request_failed invalid_data_field : PagingError

abbrev pub Params : Type 0
Params = List (Text × Text)

-- The other code's part: whether the parameters merge into the endpoint, the answer to a request, and
-- Go's conversions of a float64 to an int and to text.
pub record Server : Type 0 where
  pub merges : Params → Bool
  pub answer : ℕ → Params → Result PagingError Fields
  pub to_int : ℕ → ℤ
  pub format_float : ℕ → Text

-- resolvePath, along the segments
unfoldable pub resolve_segments : List Text → Value → Option Value
unfolding get
resolve_segments [] v = some v
resolve_segments (k ∷ ks) (object m) = elim (get k m) [
  | none ↦ none
  | some v ↦ resolve_segments ks v
]
resolve_segments (k ∷ ks) v = none

unfoldable pub resolve_path : Fields → Text → Option Value
unfolding resolve_segments split
resolve_path obj path =
    if is_blank path then none else resolve_segments (split b'.' path) (object obj)

-- extractIntField, extractStringField
abbrev pub int_of : Server → Option Value → ℤ
int_of server (some (float f)) = server.to_int f
int_of server v = pos 0

unfoldable pub extract_int_field : Server → Fields → Text → ℤ
unfolding resolve_path
extract_int_field server obj name = int_of server (resolve_path obj name)

abbrev pub text_of : Server → Option Value → Text
text_of server (some (text s)) = s
text_of server (some (float f)) = server.format_float f
text_of server v = []

unfoldable pub extract_string_field : Server → Fields → Text → Text
unfolding resolve_path
extract_string_field server obj name = text_of server (resolve_path obj name)

-- convertToRecords: what is not an object is left out.
abbrev pub records_of : Items → List Fields
records_of nil = []
records_of (cons (object m) a) = m ∷ records_of a
records_of (cons v a) = records_of a

unfoldable pub convert_to_records : Value → Result PagingError (List Fields)
convert_to_records (array a) = ok (records_of a)
convert_to_records v = err invalid_data_field

-- extractDataFromField
unfoldable pub extract_data_from_field : Fields → Text → Result PagingError (List Fields)
unfolding resolve_path convert_to_records
extract_data_from_field obj name = elim (resolve_path obj name) [
  | none ↦ err invalid_data_field
  | some v ↦ convert_to_records v
]

-- extractRecordsFromObject; the first common field that holds a list counts.
unfoldable pub first_records : List Text → Fields → Option (List Fields)
unfolding get convert_to_records
first_records [] obj = none
first_records (k ∷ ks) obj = elim (get k obj) [
  | none ↦ first_records ks obj
  | some v ↦ elim (convert_to_records v) [ ok rs ↦ some rs | err e ↦ first_records ks obj ]
]

abbrev pub common_fields : List Text
common_fields = codes "data" ∷ codes "items" ∷ codes "results" ∷ codes "records" ∷ []

unfoldable pub extract_records_from_object : Text → Fields → Result PagingError (List Fields)
unfolding extract_data_from_field first_records
extract_records_from_object data_field obj =
    if not (is_blank data_field)
    then extract_data_from_field obj data_field
    else elim (first_records common_fields obj) [ none ↦ err invalid_data_field | some rs ↦ ok rs ]
