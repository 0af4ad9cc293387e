-- ===== src/Tests/Filters.antt =====
-- The field filters on concrete records (internal/modules/filter/set.go, remove.go).
use cannectors.Prelude.{ℕ, ◌≡◌, refl, Bool, false, some, [], ◌∷◌, codes, map}
use cannectors.Value.{text, array, object, nil, cons, Fields, end, field}
use cannectors.Value.Maps
use cannectors.RecordPath.Access.{get}
use cannectors.ErrHandling.Marker.Record.{record_markers}
use cannectors.Filter.Fieldwise.{SetConfig, SetModule, new_set_from_config, set_process}
use cannectors.Filter.Reserved.{record_markers-set_process}

abbrev setter : SetModule
setter = record { target = codes "meta.tag"; value = text (codes "x") }

abbrev setter_config : SetConfig
setter_config = record {
  on_error = codes "";
  target = codes "meta.tag";
  value = some (text (codes "x"));
}

abbrev marked : Fields
marked = field (codes "_errors") (array (cons (object end) nil)) end

abbrev tagged : Fields
tagged =
    field (codes "_errors") (array (cons (object end) nil))
      (field (codes "meta") (object (field (codes "tag") (text (codes "x")) end)) end)

never : ℕ → Bool
never i = false

record_markers-set_process_example :
    map record_markers (tagged ∷ []) ≡ map record_markers (marked ∷ [])
unfolding new_set_from_config set_process never cannectors.RecordPath.Access.set
    cannectors.RecordPath.Segment.split cannectors.RecordPath.Access.descend
    cannectors.RecordPath.Segment.parse_part cannectors.RecordPath.Access.assign Maps.put Maps.get
record_markers-set_process_example =
    record_markers-set_process setter_config setter never (marked ∷ []) (tagged ∷ []) refl refl
