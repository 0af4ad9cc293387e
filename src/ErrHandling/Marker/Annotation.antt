-- ===== src/ErrHandling/Marker/Annotation.antt =====
-- Markers accumulate on the record and in the tally (internal/errhandling/marker.go, record_error.go).
use cannectors.Prelude.{
  ◌+◌, ◌≡◌, refl, ap, true, false, Option, none, some, [], ◌∷◌, ◌++◌, Text, arith, same, same_refl,
  if◌then◌else◌,
}
use cannectors.Value.{object, Items, nil, cons, Fields}
use cannectors.Value.Maps
use cannectors.Value.Maps.{get-put}
use cannectors.Value.Arrays
use cannectors.ErrHandling.Classify.{Category, GoError}
use cannectors.ErrHandling.Marker.{Marker, Source, record_errors_field, new_marker}
use cannectors.ErrHandling.Marker.Record.{
  marker_map, array_of, annotate_record, objects, record_markers, Tally, same_category,
  tally_record, count_of, Strategy, fail, skip, log, other, stop, drop, keep, handle_record_error,
}

objects-append :
    (a : Items) (m : Fields)
    → objects (Arrays.append a (cons (object m) nil)) ≡ objects a ++ (m ∷ [])
unfolding objects Arrays.append
objects-append nil m = refl
objects-append (cons (object n) a) m = ap (◌∷◌ n) (objects-append a m)
objects-append (cons v a) m = objects-append a m

-- Annotating a record adds its marker behind those that the record carries, and changes no other
-- field.
pub annotate_record_adds :
    (r : Fields) (m : Marker)
    → (record_markers (annotate_record r m) ≡ record_markers r ++ (marker_map m ∷ []))
      × ((k : Text)
          → same record_errors_field k ≡ false
          → Maps.get k (annotate_record r m) ≡ Maps.get k r)
unfolding annotate_record record_markers
annotate_record_adds r m = (
  rw (get-put, same_refl)
      (objects-append (array_of (Maps.get record_errors_field r)) (marker_map m)),
  λ k h. rw (get-put, h),
)

same_category_iff : (c d : Category) → same_category c d ≡ true → c ≡ d
same_category_iff c d h = ground arith

count_of-tally_record :
    (c d : Category) (t : Tally)
    → count_of d (tally_record c t) ≡ (if same_category c d then count_of d t + 1 else count_of d t)
unfolding count_of tally_record
count_of-tally_record c d [] = ground arith
count_of-tally_record c d ((b, n) ∷ t) = ground (
  arith,
  count_of-tally_record c d t,
  same_category_iff b c,
  same_category_iff b d,
  same_category_iff c d,
)

abbrev pub tally_of : Option Tally → Tally
tally_of none = []
tally_of (some t) = t

-- Under `log` the failed record goes on with one more marker, that of the failure, behind those it
-- had, and a run's tally counts one more failure of the marker's category and no other; under
-- `skip` the record is dropped and under any other strategy the module stops, and the tally stays.
pub handle_record_error_outcomes :
    (sanitize redact : Text → Text) (t : Tally) (r : Fields) (src : Source) (e : GoError)
    → let m = new_marker sanitize redact src e in
      let handle = λ (s : Strategy). handle_record_error sanitize redact (some t) s r src e in
      ((r' : Fields) × ((handle log).0 ≡ keep r')
        × (record_markers r' ≡ record_markers r ++ (marker_map m ∷ [])))
      × ((d : Category)
          → count_of d (tally_of (handle log).1)
            ≡ (if same_category m.category d then count_of d t + 1 else count_of d t))
      × (handle skip ≡ (drop, some t))
      × (handle fail ≡ (stop, some t))
      × ((s : Text) → handle (other s) ≡ (stop, some t))
unfolding handle_record_error
handle_record_error_outcomes sanitize redact t r src e =
    let m = new_marker sanitize redact src e in
    (
      (annotate_record r m, refl, (annotate_record_adds r m).0),
      (λ d. count_of-tally_record m.category d t),
      refl,
      refl,
      λ s. refl,
    )
