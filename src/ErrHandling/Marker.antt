-- ===== src/ErrHandling/Marker.antt =====
-- internal/errhandling/marker.go, marker_tally.go and record_error.go: the trace of a failure that
-- is kept on the record that failed, under the reserved key `_errors`.
pub mod Record
pub mod Reclassify
pub mod Annotation
pub mod Target
use cannectors.Prelude.{
  ℕ, zero, suc, ◌+◌, Bool, true, false, ◌&&◌, ◌||◌, Option, none, some, List, [], ◌∷◌, Text, codes,
  same, is_blank, ◌==◌, if◌then◌else◌,
}
use cannectors.Prelude.Int.{ℤ, pos, negsuc, ltb_ℤ, leb_ℤ}
use cannectors.ErrHandling.Classify.{
  Category, network, authentication, validation, rate_limit, server, not_found, unknown, Classified,
  ModuleInfo, Link, GoError, message_of, as_first, classify_error,
}

-- RecordErrorsField
abbrev pub record_errors_field : Text
record_errors_field = codes "_errors"

-- ClassificationOverrides
pub record Overrides : Type 0 where
  pub functional : List ℕ
  pub technical : List ℕ

-- MarkerSource
pub record Source : Type 0 where
  pub module_name : Text
  pub record_index : ℤ
  pub attempts : ℤ
  pub overrides : Overrides

pub record Marker : Type 0 where
  pub module_name : Text
  pub category : Category
  pub retryable : Bool
  pub code : Text
  pub status_code : ℕ
  pub message : Text
  pub attempts : ℤ
  pub record_index : ℤ

-- isTechnicalCategory
abbrev pub is_technical : Category → Bool
is_technical network = true
is_technical server = true
is_technical rate_limit = true
is_technical _ = false

abbrev is_unknown : Category → Bool
is_unknown unknown = true
is_unknown _ = false

-- slices.Contains
unfoldable pub contains : List ℕ → ℕ → Bool
contains [] s = false
contains (c ∷ cs) s = let rest = contains cs s in c == s || rest

abbrev pub is_empty_list : List ℕ → Bool
is_empty_list [] = true
is_empty_list (c ∷ cs) = false

-- (ClassificationOverrides).IsEmpty
unfoldable pub is_empty : Overrides → Bool
is_empty o = is_empty_list o.functional && is_empty_list o.technical

-- (ClassificationOverrides).apply
unfoldable pub apply : Overrides → ℕ → Category → Bool → Category × Bool
unfolding is_empty
apply o s category retryable =
    if s == 0 || is_empty o
    then (category, retryable)
    else if contains o.functional s
    then (if is_technical category || is_unknown category
        then (validation, false)
        else (category, false))
    else if contains o.technical s
    then (if is_technical category then (category, true) else (server, true))
    else (category, retryable)

-- what NewMarker takes from a ModuleError
abbrev refine : Option ModuleInfo → Marker → Marker
refine none m = m
refine (some i) m = record m {
  code = (if is_blank i.code then m.code else i.code);
  module_name = (if is_blank m.module_name then i.module_name else m.module_name);
  record_index =
      (if ltb_ℤ m.record_index (pos 0)
        then (if leb_ℤ (pos 0) i.record_index then i.record_index else m.record_index)
        else m.record_index);
}

-- NewMarker; `sanitize` is urlsan.Sanitize and `redact` is urlsan.RedactText.
unfoldable pub new_marker : (Text → Text) → (Text → Text) → Source → GoError → Marker
unfolding as_first
new_marker sanitize redact src [] = record {
  module_name = src.module_name;
  category = unknown;
  retryable = false;
  code = [];
  status_code = 0;
  message = [];
  attempts = src.attempts;
  record_index = src.record_index;
}
new_marker sanitize redact src (l ∷ ls) =
    let cl = classify_error sanitize (l ∷ ls) in
    let (category, retryable) = apply src.overrides cl.status_code cl.category cl.retryable in
    refine (as_first (λ k. k.module_error) (l ∷ ls)) (record {
      module_name = src.module_name;
      category = category;
      retryable = retryable;
      code = [];
      status_code = cl.status_code;
      message = redact l.message;
      attempts = src.attempts;
      record_index = src.record_index;
    })
