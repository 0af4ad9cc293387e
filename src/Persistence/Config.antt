-- ===== src/Persistence/Config.antt =====
-- internal/persistence/config.go and the State of state.go.
use cannectors.Prelude.{ℕ, Bool, false, ◌||◌, Option, none, some, Text, codes}
use cannectors.Value.{Value, bool, text, object, Fields}
use cannectors.Value.Maps

-- TimestampConfig
pub record TimestampConfig : Type 0 where
  pub enabled : Bool
  pub query_param : Text

-- IDConfig
pub record IdConfig : Type 0 where
  pub enabled : Bool
  pub field_path : Text
  pub query_param : Text

-- StatePersistenceConfig
pub record PersistenceConfig : Type 0 where
  pub timestamp : Option TimestampConfig
  pub id : Option IdConfig
  pub storage_path : Text

-- State; times are counts of a clock.
pub record State : Type 0 where
  pub pipeline_id : Text
  pub last_timestamp : Option ℕ
  pub last_id : Option Text
  pub updated_at : ℕ

-- TimestampEnabled, on a pointer that may be nil
unfoldable pub timestamp_enabled : Option PersistenceConfig → Bool
timestamp_enabled none = false
timestamp_enabled (some c) = elim c.timestamp [ none ↦ false | some t ↦ t.enabled ]

-- IDEnabled
unfoldable pub id_enabled : Option PersistenceConfig → Bool
id_enabled none = false
id_enabled (some c) = elim c.id [ none ↦ false | some i ↦ i.enabled ]

-- IsEnabled
unfoldable pub is_enabled : Option PersistenceConfig → Bool
is_enabled none = false
is_enabled (some c) =
    elim c.timestamp [ none ↦ false | some t ↦ t.enabled ]
    || elim c.id [ none ↦ false | some i ↦ i.enabled ]

-- ID.Field, where there is an id configuration
abbrev pub id_field : Option PersistenceConfig → Text
id_field none = codes ""
id_field (some c) = elim c.id [ none ↦ codes "" | some i ↦ i.field_path ]

-- m[key].(bool) and m[key].(string), with the zero value where the assertion fails
abbrev bool_at : Text → Fields → Bool
bool_at k m = elim (Maps.get k m) [ some (bool b) ↦ b | _ ↦ false ]

abbrev text_at : Text → Fields → Text
text_at k m = elim (Maps.get k m) [ some (text t) ↦ t | _ ↦ codes "" ]

abbrev parse_timestamp : Option Value → Option TimestampConfig
parse_timestamp (some (object m)) =
    some (record {
      enabled = bool_at (codes "enabled") m;
      query_param = text_at (codes "queryParam") m;
    })
parse_timestamp _ = none

abbrev parse_id : Option Value → Option IdConfig
parse_id (some (object m)) = some (record {
  enabled = bool_at (codes "enabled") m;
  field_path = text_at (codes "field") m;
  query_param = text_at (codes "queryParam") m;
})
parse_id _ = none

-- ParseStatePersistenceConfig
unfoldable pub parse_state_persistence_config : Fields → Option PersistenceConfig
parse_state_persistence_config config = elim (Maps.get (codes "statePersistence") config) [
  | some (object m) ↦ some (record {
    timestamp = parse_timestamp (Maps.get (codes "timestamp") m);
    id = parse_id (Maps.get (codes "id") m);
    storage_path = text_at (codes "storagePath") m;
  })
  | _ ↦ none
]
