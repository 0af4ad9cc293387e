-- ===== src/Filter/Reserved.antt =====
-- What the set and remove filters do to a record (internal/modules/filter/set.go, remove.go).
use mathlib.Core.Path.{ap₂}
use cannectors.Prelude.{
  ℕ, ◌+◌, ◌≡◌, ◌≢◌, refl, ◌⊎◌, Bool, true, false, Option, none, some, List, [], ◌∷◌, Text, Result,
  ok, arith, same_refl, map, inl, inr, Bool-cases,
}
use cannectors.Value.{Value, Fields}
use cannectors.Value.Maps
use cannectors.Value.Maps.{get-put, get-remove}
use cannectors.RecordPath.Access.{
  is_nested, navigate_step, navigate, get_from_map, index_into, set, get, ◌>>=◌,
}
use cannectors.RecordPath.Segment.{index, split, parse_part}
use cannectors.RecordPath.RoundTrip.{get-set}
use cannectors.RecordPath.Deletion.{EndsUnindexed, get-delete}
use cannectors.RecordPath.Root.{root-not_nested}
use cannectors.ErrHandling.Marker.Record.{record_markers, validate_record_target}
use cannectors.ErrHandling.Marker.Target.{
  record_markers-set, root_of_accepted, record_markers_of_field,
}
use cannectors.Filter.Batch.{process, process_from}
use cannectors.Filter.Fieldwise.{
  SetConfig, SetModule, new_set_from_config, set_record, set_process, remove_target,
}

-- A batch that gives a result has gone through its first record and through the rest.
process_from-cons :
    {E : Type 0} (done : ℕ → Bool) (f : Fields → Result E Fields) (i : ℕ) (r : Fields)
    (rs rs' : List Fields)
    → process_from done f i (r ∷ rs) ≡ ok rs'
    → (r' : Fields) × (rest : List Fields) × (f r ≡ ok r')
      × (process_from done f (i + 1) rs ≡ ok rest)
      × (rs' ≡ r' ∷ rest)
unfolding process_from
process_from-cons done f i r rs rs' h = ground arith

-- A batch whose records each keep a view has the same views, in order.
process_from-keeps {ℓ} :
    {E : Type 0} {A : Type ℓ} (view : Fields → A) (done : ℕ → Bool) (f : Fields → Result E Fields)
    → ((r r' : Fields) → f r ≡ ok r' → view r' ≡ view r)
    → (i : ℕ) (rs rs' : List Fields) → process_from done f i rs ≡ ok rs'
    → map view rs' ≡ map view rs
process_from-keeps view done f keeps i [] rs' h = unfold process_from in cc
process_from-keeps view done f keeps i (r ∷ rs) rs' h =
    let (r', rest, one, others, e) = process_from-cons done f i r rs rs' h in
    rw e (ap₂ ◌∷◌ (keeps r r' one) (process_from-keeps view done f keeps (i + 1) rs rest others))

process-keeps {ℓ} :
    {E : Type 0} {A : Type ℓ} (view : Fields → A) (done : ℕ → Bool) (f : Fields → Result E Fields)
    → ((r r' : Fields) → f r ≡ ok r' → view r' ≡ view r)
    → (rs rs' : List Fields) → process done f rs ≡ ok rs'
    → map view rs' ≡ map view rs
unfolding process
process-keeps view done f keeps rs rs' h =
    process_from-keeps view done f keeps 0 rs rs' (ground arith)

split-not_nested :
    (s : Text) → is_nested s ≡ false → (split b'.' s ≡ s ∷ []) × (index b'[' s ≡ none)
unfolding is_nested split index
split-not_nested [] h = (refl, refl)
split-not_nested (c ∷ s) h = ground (arith, split-not_nested s)

bind_some : (o : Option Value) → ((o >>= λ v. index_into none v) >>= λ v. some v) ≡ o
bind_some none = refl
bind_some (some v) = refl

-- A path that is not nested reads the field of that name.
get-not_nested :
    (r : Fields) (c : ℕ) (s : Text) → is_nested (c ∷ s) ≡ false → get r (c ∷ s) ≡ Maps.get (c ∷ s) r
unfolding get
get-not_nested r c s h =
    let (one, flat) = split-not_nested (c ∷ s) h in
    let plain : parse_part (c ∷ s) ≡ some (record { key = c ∷ s; index_of = none }) =
      (unfold parse_part in rw (flat, parse_part)) in
    rw one (
      unfold navigate navigate_step get_from_map in
      rw (plain, navigate_step) (bind_some (Maps.get (c ∷ s) r)))

accepted_target :
    (c : SetConfig) (m : SetModule)
    → new_set_from_config c ≡ ok m
    → (validate_record_target m.target ≡ true) × (m.target ≢ [])
unfolding new_set_from_config
accepted_target c m h = ground arith

-- A record that the set filter accepts was written at the top or through the path.
set_record_cases :
    (m : SetModule) (r r' : Fields)
    → set_record m r ≡ ok r'
    → ((is_nested m.target ≡ false) × (r' ≡ Maps.put m.target m.value r))
      ⊎ ((is_nested m.target ≡ true)
          × ((set r m.target m.value).1 ≡ none)
          × (r' ≡ (set r m.target m.value).0))
unfolding set_record
set_record_cases m r r' h = ground arith

record_markers-set_record :
    (m : SetModule) (r r' : Fields)
    → validate_record_target m.target ≡ true
    → set_record m r ≡ ok r'
    → record_markers r' ≡ record_markers r
record_markers-set_record m r r' v h = elim (set_record_cases m r r' h) [
  | inl (flat, e) ↦ rw e (
      record_markers_of_field r (Maps.put m.target m.value r)
        (rw (get-put, (rw (root-not_nested m.target flat) at (root_of_accepted m.target v)))))
  | inr (nested, fine, e) ↦ rw e (record_markers-set r m.target m.value v)
]

-- The set filter, once its configuration is accepted, never touches the error markers: each record
-- of a batch that it passes on has the markers that it came with.
pub record_markers-set_process :
    (c : SetConfig) (m : SetModule) (done : ℕ → Bool) (rs rs' : List Fields)
    → new_set_from_config c ≡ ok m
    → set_process done m rs ≡ ok rs'
    → map record_markers rs' ≡ map record_markers rs
unfolding set_process
record_markers-set_process c m done rs rs' a h =
    process-keeps record_markers done (set_record m)
      (λ r r' one. record_markers-set_record m r r' (accepted_target c m a).0 one) rs rs' h

get-put_target :
    (t : Text) (v : Value) (r : Fields)
    → t ≢ []
    → is_nested t ≡ false
    → get (Maps.put t v r) t ≡ some v
get-put_target [] v r h flat = absurd (h refl)
get-put_target (c ∷ s) v r h flat =
    rw (get-not_nested (Maps.put (c ∷ s) v r) c s flat) (rw (get-put, same_refl))

-- A record that the set filter passes on reads back the configured value at the configured path.
pub get-set_record :
    (c : SetConfig) (m : SetModule) (r r' : Fields)
    → new_set_from_config c ≡ ok m
    → set_record m r ≡ ok r'
    → get r' m.target ≡ some m.value
get-set_record c m r r' a h = elim (set_record_cases m r r' h) [
  | inl (flat, e) ↦ rw e (get-put_target m.target m.value r (accepted_target c m a).1 flat)
  | inr (nested, fine, e) ↦ rw e (get-set r m.target m.value fine)
]

EndsUnindexed-not_nested : (t : Text) → is_nested t ≡ false → EndsUnindexed (split b'.' t)
EndsUnindexed-not_nested t flat = let (one, no_index) = split-not_nested t flat in rw one no_index

get-remove_flat : (t : Text) (r : Fields) → is_nested t ≡ false → get (Maps.remove t r) t ≡ none
get-remove_flat [] r flat = unfold get in refl
get-remove_flat (c ∷ s) r flat =
    rw (get-not_nested (Maps.remove (c ∷ s) r) c s flat) (rw (get-remove, same_refl))

-- After the remove filter has handled a target whose last segment has no array index, the target
-- leads nowhere in the record.
pub get-remove_target :
    (t : Text) (r : Fields) → EndsUnindexed (split b'.' t) → get (remove_target t r) t ≡ none
unfolding remove_target
get-remove_target t r h = elim (Bool-cases (is_nested t)) [
  | inl nested ↦ rw nested (get-delete r t h)
  | inr flat ↦ rw flat (get-remove_flat t r flat)
]
