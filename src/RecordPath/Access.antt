-- ===== src/RecordPath/Access.antt =====
-- `IsNested`, `Get`, `Set` and `Delete` of internal/recordpath/path.go.
use cannectors.Prelude.{
  ℕ, ◌+◌, ◌-◌, Bool, false, ◌||◌, Option, none, some, List, [], ◌∷◌, Text, leb, ◌==◌, if◌then◌else◌,
}
use cannectors.Value.{Value, array, object, Items, nil, Fields, end}
use cannectors.Value.Maps
use cannectors.Value.Arrays
use cannectors.Value.Arrays.{size}
use cannectors.RecordPath.Segment.{Part, split, parse_part}

-- Path parsing errors.
pub data Error : Type 0 where
  empty_path : Error
  invalid_array_index : Error

infixl 10 ◌>>=◌
abbrev pub ◌>>=◌ {ℓ κ} : {A : Type ℓ} {B : Type κ} → Option A → (A → Option B) → Option B
none >>= f = none
some a >>= f = f a

unfoldable pub is_nested : Text → Bool
is_nested [] = false
is_nested (c ∷ s) = let rest = is_nested s in c == b'.' || c == b'[' || rest

unfoldable pub get_from_map : Text → Value → Option Value
get_from_map key (object m) = Maps.get key m
get_from_map key _ = none

unfoldable pub get_from_array : ℕ → Value → Option Value
get_from_array i (array a) = Arrays.at i a
get_from_array i _ = none

abbrev pub index_into : Option ℕ → Value → Option Value
index_into none v = some v
index_into (some i) v = get_from_array i v

unfoldable pub navigate_step : Value → Text → Option Value
unfolding get_from_map get_from_array
navigate_step current part = do
  p ← parse_part part
  next ← get_from_map p.key current
  index_into p.index_of next

-- The loop of `navigate` over the segments it walks.
unfoldable pub navigate : List Text → Value → Option Value
navigate [] current = some current
navigate (p ∷ ps) current = navigate_step current p >>= λ next. navigate ps next

unfoldable pub get : Fields → Text → Option Value
unfolding navigate
get obj [] = none
get obj (c ∷ s) = navigate (split b'.' (c ∷ s)) (object obj)

-- The map or array under a key, and an empty one where there is none.
abbrev pub map_or_new : Option Value → Fields
map_or_new (some (object m)) = m
map_or_new _ = end

abbrev pub array_or_new : Option Value → Items
array_or_new (some (array a)) = a
array_or_new _ = nil

-- Grows the array with nil so that `i` is an index of it.
unfoldable pub grow : ℕ → Items → Items
grow i a = if leb (size a) i then Arrays.append a (Arrays.nulls (i + 1 - size a)) else a

-- Write one segment's place by what `k` makes of the map that stands there.
unfoldable pub descend :
    Option Part → (Fields → Fields × Option Error) → Fields → Fields × Option Error
unfolding grow
descend none k m = (m, some invalid_array_index)
descend (some p) k m = elim p.index_of [
  | none ↦
      let (child, e) = k (map_or_new (Maps.get p.key m)) in (Maps.put p.key (object child) m, e)
  | some i ↦
      let a = grow i (array_or_new (Maps.get p.key m)) in
      let (child, e) = k (map_or_new (Arrays.at i a)) in
      (Maps.put p.key (array (Arrays.write i (object child) a)) m, e)
]

-- The last segment: `current[part] = value` or `setArrayElement`.
unfoldable pub assign : Option Part → Value → Fields → Fields × Option Error
unfolding grow
assign none v m = (m, some invalid_array_index)
assign (some p) v m = elim p.index_of [
  | none ↦ (Maps.put p.key v m, none)
  | some i ↦
      let a = grow i (array_or_new (Maps.get p.key m)) in
      (Maps.put p.key (array (Arrays.write i v a)) m, none)
]

-- The loop of `Set`.
unfoldable pub set_parts : List Text → Value → Fields → Fields × Option Error
set_parts [] v m = (m, none)
set_parts (p ∷ []) v m = assign (parse_part p) v m
set_parts (p ∷ q ∷ ps) v m = descend (parse_part p) (set_parts (q ∷ ps) v) m

unfoldable pub set : Fields → Text → Value → Fields × Option Error
unfolding set_parts
set obj [] v = (obj, some empty_path)
set obj (c ∷ s) v = set_parts (split b'.' (c ∷ s)) v obj

-- deleteFromMap
unfoldable pub delete_from_map : Part → Fields → Fields
delete_from_map p m = elim p.index_of [
  | none ↦ Maps.remove p.key m
  | some i ↦ elim (Maps.get p.key m) [
    | some (array a) ↦ if leb (size a) i then m else Maps.put p.key (array (Arrays.splice i a)) m
    | _ ↦ m
  ]
]

-- deleteFromArray
unfoldable pub delete_from_array : Part → Items → Items
delete_from_array p a = elim p.index_of [
  | none ↦ a
  | some i ↦ elim (Arrays.at i a) [
    | some (object m) ↦ Arrays.write i (object (Maps.remove p.key m)) a
    | _ ↦ a
  ]
]

-- deleteLeafFromParent
unfoldable pub delete_leaf : Option Part → Value → Value
unfolding delete_from_map delete_from_array
delete_leaf none parent = parent
delete_leaf (some p) (object m) = object (delete_from_map p m)
delete_leaf (some p) (array a) = array (delete_from_array p a)
delete_leaf (some p) v = v

-- The value under a segment replaced by what `k` makes of it, nothing where the segment leads
-- nowhere: how a change of the parent that `navigate` finds shows in the record.
unfoldable pub update_item : Text → ℕ → (Value → Value) → Fields → Items → Option Value → Value
update_item key i k m a none = object m
update_item key i k m a (some v) = object (Maps.put key (array (Arrays.write i (k v) a)) m)

unfoldable pub update_next : Text → Option ℕ → (Value → Value) → Fields → Option Value → Value
unfolding update_item
update_next key ix k m none = object m
update_next key none k m (some next) = object (Maps.put key (k next) m)
update_next key (some i) k m (some (array a)) = update_item key i k m a (Arrays.at i a)
update_next key (some i) k m (some _) = object m

unfoldable pub update_step : Option Part → (Value → Value) → Value → Value
unfolding update_next
update_step none k v = v
update_step (some p) k (object m) = update_next p.key p.index_of k m (Maps.get p.key m)
update_step (some p) k v = v

-- Delete at the segments of a path: to the parent, then its leaf.
unfoldable pub delete_parts : List Text → Value → Value
unfolding delete_leaf update_step
delete_parts [] v = v
delete_parts (p ∷ []) v = delete_leaf (parse_part p) v
delete_parts (p ∷ q ∷ ps) v = update_step (parse_part p) (delete_parts (q ∷ ps)) v

abbrev fields_of : Value → Fields → Fields
fields_of (object m) d = m
fields_of _ d = d

unfoldable pub delete : Fields → Text → Fields
unfolding delete_parts
delete obj [] = obj
delete obj (c ∷ s) = fields_of (delete_parts (split b'.' (c ∷ s)) (object obj)) obj
