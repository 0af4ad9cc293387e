-- ===== src/Value.antt =====
-- Decoded JSON: Go's `any`, `[]any` and `map[string]any` (pkg/connector, encoding/json). A map is an
-- association list whose keys are read first to last; a nil map reads as the empty one. A float64
-- is its IEEE bit pattern, which the code modelled here only copies.
pub mod Maps
pub mod Arrays
use cannectors.Prelude.{ℕ, Bool, Text, List, [], ◌∷◌}
use cannectors.Prelude.Int.{ℤ}

mutual
  pub data Value : Type 0 where
    null : Value
    bool : Bool → Value
    int : ℤ → Value
    float : ℕ → Value
    text : Text → Value
    array : Items → Value
    object : Fields → Value

  -- []any
  pub data Items : Type 0 where
    nil : Items
    cons : Value → Items → Items

  -- map[string]any
  pub data Fields : Type 0 where
    end : Fields
    field : Text → Value → Fields → Fields
