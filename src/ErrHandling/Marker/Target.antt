-- ===== src/ErrHandling/Marker/Target.antt =====
-- A field path that ValidateRecordTarget accepts cannot reach the error markers
-- (internal/errhandling/marker.go with internal/recordpath/path.go).
use cannectors.Prelude.{◌≡◌, true, false, Text, arith, ap, same}
use cannectors.Value.{Value, Fields}
use cannectors.Value.Maps
use cannectors.RecordPath.Access
use cannectors.RecordPath.Segment.{root}
use cannectors.RecordPath.Root.{get-set-root_ne}
use cannectors.ErrHandling.Marker.{record_errors_field}
use cannectors.ErrHandling.Marker.Record.{array_of, objects, record_markers, validate_record_target}

pub root_of_accepted :
    (path : Text)
    → validate_record_target path ≡ true
    → same (root path) record_errors_field ≡ false
unfolding validate_record_target
root_of_accepted path h = ground arith

pub record_markers_of_field :
    (r r' : Fields)
    → Maps.get record_errors_field r' ≡ Maps.get record_errors_field r
    → record_markers r' ≡ record_markers r
unfolding record_markers
record_markers_of_field r r' h = ap (λ v. objects (array_of v)) h

-- Writing through a path that ValidateRecordTarget accepts, whether the write succeeds or fails
-- half-way, leaves the record's markers as they are.
pub record_markers-set :
    (obj : Fields) (path : Text) (v : Value)
    → validate_record_target path ≡ true
    → record_markers (Access.set obj path v).0 ≡ record_markers obj
record_markers-set obj path v h =
    record_markers_of_field obj (Access.set obj path v).0
      (get-set-root_ne obj path v record_errors_field (root_of_accepted path h))
