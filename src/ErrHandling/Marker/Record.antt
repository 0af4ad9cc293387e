-- ===== src/ErrHandling/Marker/Record.antt =====
-- Markers on records and in the run's tally: Map, AnnotateRecord, RecordMarkers, IsReservedRecordPath
-- and ValidateRecordTarget (internal/errhandling/marker.go), MarkerTally (marker_tally.go),
-- HandleRecordError (record_error.go) and ParseOnErrorStrategy (retry.go). A nil record reads as
-- the empty one.
use cannectors.Prelude.{
  ℕ, ◌+◌, Bool, true, false, not, ◌&&◌, ◌||◌, Option, none, some, List, [], ◌∷◌, Text, codes, same,
  is_blank, leb, ◌==◌, map, if◌then◌else◌, Result, ok, err,
}
use cannectors.Prelude.Int.{pos, ltb_ℤ, leb_ℤ}
use cannectors.Value.{Value, bool, int, text, array, object, Items, nil, cons, Fields, end}
use cannectors.Value.Maps
use cannectors.Value.Arrays
use cannectors.RecordPath.Segment.{root}
use cannectors.ErrHandling.Classify.{
  Category, network, authentication, validation, rate_limit, server, not_found, unknown, GoError,
}
use cannectors.ErrHandling.Retry.Executor.{category_text}
use cannectors.ErrHandling.Marker.{Marker, Source, record_errors_field, new_marker}

-- (Marker).Map: the keys that do not apply are left out.
unfoldable pub marker_map : Marker → Fields
unfolding category_text
marker_map m =
    let base = Maps.put (codes "message") (text m.message) (
      Maps.put (codes "retryable") (bool m.retryable) (
        Maps.put (codes "category") (text (category_text m.category))
          (Maps.put (codes "module") (text m.module_name) end))) in
    let coded = (if is_blank m.code then base else Maps.put (codes "code") (text m.code) base) in
    let status =
      (if m.status_code == 0
        then coded
        else Maps.put (codes "statusCode") (int (pos m.status_code)) coded) in
    let tried =
      (if ltb_ℤ (pos 0) m.attempts
        then Maps.put (codes "attempts") (int m.attempts) status
        else status) in
    if leb_ℤ (pos 0) m.record_index
    then Maps.put (codes "recordIndex") (int m.record_index) tried
    else tried

abbrev pub array_of : Option Value → Items
array_of (some (array a)) = a
array_of _ = nil

-- AnnotateRecord
unfoldable pub annotate_record : Fields → Marker → Fields
annotate_record r m =
    Maps.put record_errors_field
      (array (
        Arrays.append (array_of (Maps.get record_errors_field r))
          (cons (object (marker_map m)) nil)))
      r

-- the maps among the elements
unfoldable pub objects : Items → List Fields
objects nil = []
objects (cons (object m) a) = m ∷ objects a
objects (cons v a) = objects a

-- RecordMarkers; nil reads as the empty list.
unfoldable pub record_markers : Fields → List Fields
unfolding objects
record_markers r = objects (array_of (Maps.get record_errors_field r))

-- HasMarkers
unfoldable pub has_markers : Fields → Bool
unfolding record_markers
has_markers r = elim (record_markers r) [ [] ↦ false | m ∷ ms ↦ true ]

-- IsReservedRecordPath
unfoldable pub is_reserved_record_path : Text → Bool
unfolding root same
is_reserved_record_path path = same (root path) record_errors_field

-- ValidateRecordTarget accepts the path
unfoldable pub validate_record_target : Text → Bool
unfolding is_reserved_record_path
validate_record_target path = not (is_reserved_record_path path)

-- MarkerTally: the counts by category, none of them zero.
abbrev pub Tally : Type 0
Tally = List (Category × ℕ)

abbrev pub same_category : Category → Category → Bool
same_category network network = true
same_category authentication authentication = true
same_category validation validation = true
same_category rate_limit rate_limit = true
same_category server server = true
same_category not_found not_found = true
same_category unknown unknown = true
same_category _ _ = false

-- (*MarkerTally).Record: counts[category]++
unfoldable pub tally_record : Category → Tally → Tally
tally_record c [] = (c, 1) ∷ []
tally_record c ((d, n) ∷ t) =
    let rest = tally_record c t in if same_category d c then (d, n + 1) ∷ t else (d, n) ∷ rest

-- counts[category]
unfoldable pub count_of : Category → Tally → ℕ
count_of c [] = 0
count_of c ((d, n) ∷ t) = let rest = count_of c t in if same_category d c then n else rest

-- OnErrorStrategy; the code's strings, and any other.
pub data Strategy : Type 0 where
  fail skip log : Strategy
  other : Text → Strategy

-- RecordOutcome, with the record that `keep` forwards.
pub data Outcome : Type 0 where
  stop : Outcome
  drop : Outcome
  keep : Fields → Outcome

-- HandleRecordError; the context's tally is `none` outside a run.
unfoldable pub handle_record_error :
    (Text → Text)
    → (Text → Text)
    → Option Tally
    → Strategy
    → Fields
    → Source
    → GoError
    → Outcome × Option Tally
unfolding annotate_record tally_record
handle_record_error sanitize redact tally skip r src e = (drop, tally)
handle_record_error sanitize redact tally log r src e =
    let m = new_marker sanitize redact src e in
    (
      keep (annotate_record r m),
      elim tally [ none ↦ none | some t ↦ some (tally_record m.category t) ],
    )
handle_record_error sanitize redact tally _ r src e = (stop, tally)

-- strings.ToLower and strings.TrimSpace on ASCII text
abbrev to_lower : ℕ → ℕ
to_lower c = if leb b'A' c && leb c b'Z' then c + 32 else c

abbrev is_space : ℕ → Bool
is_space c = c == 32 || (leb 9 c && leb c 13)

trim_left : Text → Text
trim_left [] = []
trim_left (c ∷ s) = let rest = trim_left s in if is_space c then rest else c ∷ s

reverse_onto : Text → Text → Text
reverse_onto [] acc = acc
reverse_onto (c ∷ s) acc = reverse_onto s (c ∷ acc)

unfoldable pub trim_space : Text → Text
unfolding trim_left reverse_onto
trim_space s = reverse_onto (trim_left (reverse_onto (trim_left s) [])) []

-- ParseOnErrorStrategy; `err` carries the text that the error quotes.
unfoldable pub parse_on_error_strategy : Text → Result Text Strategy
unfolding trim_space same
parse_on_error_strategy s =
    let t = map to_lower (trim_space s) in
    if is_blank t
    then ok fail
    else if same t (codes "fail")
    then ok fail
    else if same t (codes "skip")
    then ok skip
    else if same t (codes "log")
    then ok log
    else err s
