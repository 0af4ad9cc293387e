-- ===== src/Value/Maps.antt =====
-- Go's operations on `map[string]any`: read, write, delete.
use cannectors.Prelude.{Text, Option, none, some, ◌≡◌, refl, arith, same, same_iff, if◌then◌else◌}
use cannectors.Value.{Value, Fields, end, field}

-- v, ok := m[key]
unfoldable pub get : Text → Fields → Option Value
get k end = none
get k (field j v m) = if same j k then some v else get k m

-- m[key] = v
unfoldable pub put : Text → Value → Fields → Fields
put k v end = field k v end
put k v (field j w m) = if same j k then field j v m else field j w (put k v m)

-- delete(m, key)
unfoldable pub remove : Text → Fields → Fields
remove k end = end
remove k (field j v m) = let rest = remove k m in if same j k then rest else field j v rest

pub get-put :
    (k j : Text) (v : Value) (m : Fields)
    → get j (put k v m) ≡ (if same k j then some v else get j m)
unfolding get put
get-put k j v end = refl
get-put k j v (field i w m) =
    ground (arith, same_iff k j, same_iff i k, same_iff i j, get-put k j v m)

pub get-remove :
    (k j : Text) (m : Fields) → get j (remove k m) ≡ (if same k j then none else get j m)
unfolding get remove
get-remove k j end = ground arith
get-remove k j (field i w m) =
    ground (arith, same_iff k j, same_iff i k, same_iff i j, get-remove k j m)

pub ruleset map_laws = (get-put, get-remove)
