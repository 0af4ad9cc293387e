-- ===== src/RecordPath/Deletion.antt =====
-- What `Delete` removes, `Get` no longer finds (internal/recordpath/path.go).
use cannectors.Prelude.{
  ℕ, zero, suc, ◌<◌, ◌≡◌, refl, Option, none, some, List, [], ◌∷◌, Text, arith, inl, inr, ◌⊎◌,
  Option-cases, same_refl,
}
use cannectors.Value.{Value, object, array, Items, nil, cons, Fields}
use cannectors.Value.Maps
use cannectors.Value.Maps.{get-put, get-remove}
use cannectors.Value.Arrays
use cannectors.Value.Arrays.{size, at-write_self}
use cannectors.RecordPath.Segment.{Part, index, split, parse_part}
use cannectors.RecordPath.Access.{
  ◌>>=◌, index_into, get_from_map, get_from_array, navigate_step, navigate, get, delete_leaf,
  update_item, update_next, update_step, delete_parts, delete, delete_from_map,
}

abbrev part : Text → Option ℕ → Part
part key ix = record { key = key; index_of = ix }

abbrev read : Part → Value → Option Value
read p current = do next ← get_from_map p.key current; index_into p.index_of next

lt-size_of_at : (i : ℕ) (a : Items) (v : Value) → Arrays.at i a ≡ some v → i < size a
unfolding Arrays.at
lt-size_of_at i nil v h = cc
lt-size_of_at zero (cons w a) v h = omega arith
lt-size_of_at (suc i) (cons w a) v h = omega (arith, lt-size_of_at i a v h)

-- The last segment names a field, not an array element.
abbrev pub EndsUnindexed : List Text → Type 0
EndsUnindexed [] = ⊥
EndsUnindexed (p ∷ []) = index b'[' p ≡ none
EndsUnindexed (p ∷ q ∷ ps) = EndsUnindexed (q ∷ ps)

read-delete_leaf :
    (key : Text) (v : Value) → read (part key none) (delete_leaf (some (part key none)) v) ≡ none
unfolding delete_leaf get_from_map
read-delete_leaf key (object m) = rw (get-remove, same_refl)
read-delete_leaf key _ = refl

-- After an update a segment leads nowhere, or to what `k` made of a value.
abbrev Leads : Text → Option ℕ → (Value → Value) → Value → Type 0
Leads key ix k v =
    (read (part key ix) v ≡ none) ⊎ ((w : Value) × (read (part key ix) v ≡ some (k w)))

update_item-Leads :
    (key : Text) (i : ℕ) (k : Value → Value) (m : Fields) (a : Items) (o : Option Value)
    → Maps.get key m ≡ some (array a)
    → Arrays.at i a ≡ o
    → Leads key (some i) k (update_item key i k m a o)
unfolding update_item get_from_map get_from_array
update_item-Leads key i k m a none e f = inl (rw e (rw f))
update_item-Leads key i k m a (some v) e f =
    inr (v, rw (get-put, same_refl) (at-write_self i (k v) a (lt-size_of_at i a v f)))

update_next-Leads :
    (key : Text) (ix : Option ℕ) (k : Value → Value) (m : Fields) (o : Option Value)
    → Maps.get key m ≡ o
    → Leads key ix k (update_next key ix k m o)
unfolding update_next get_from_map get_from_array
update_next-Leads key ix k m none e = inl (rw e)
update_next-Leads key none k m (some next) e = inr (next, rw (get-put, same_refl))
update_next-Leads key (some i) k m (some (array a)) e =
    update_item-Leads key i k m a (Arrays.at i a) e refl
update_next-Leads key (some i) k m (some _) e = inl (rw e)

update_step-Leads :
    (key : Text) (ix : Option ℕ) (k : Value → Value) (v : Value)
    → Leads key ix k (update_step (some (part key ix)) k v)
unfolding update_step get_from_map
update_step-Leads key ix k (object m) = update_next-Leads key ix k m (Maps.get key m) refl
update_step-Leads key ix k _ = inl refl

navigate-delete_parts :
    (ps : List Text) (v : Value) → EndsUnindexed ps → navigate ps (delete_parts ps v) ≡ none
unfolding navigate navigate_step delete_parts
navigate-delete_parts [] v h = absurd h
navigate-delete_parts (p ∷ []) v h =
    let e : parse_part p ≡ some (part p none) = (unfold parse_part in rw (h, parse_part)) in
    rw e (rw (read-delete_leaf p v))
navigate-delete_parts (p ∷ q ∷ ps) v h = elim (Option-cases (parse_part p)) [
  | inl e ↦ rw e refl
  | inr (r, e) ↦ elim (update_step-Leads r.key r.index_of (delete_parts (q ∷ ps)) v) [
    | inl nowhere ↦ rw e (rw nowhere)
    | inr (w, there) ↦ rw e (rw there (navigate-delete_parts (q ∷ ps) w h))
  ]
]

update_item-object :
    (key : Text) (i : ℕ) (k : Value → Value) (m : Fields) (a : Items) (o : Option Value)
    → (n : Fields) × (update_item key i k m a o ≡ object n)
unfolding update_item
update_item-object key i k m a none = (m, refl)
update_item-object key i k m a (some v) = (Maps.put key (array (Arrays.write i (k v) a)) m, refl)

update_next-object :
    (key : Text) (ix : Option ℕ) (k : Value → Value) (m : Fields) (o : Option Value)
    → (n : Fields) × (update_next key ix k m o ≡ object n)
unfolding update_next
update_next-object key ix k m none = (m, refl)
update_next-object key none k m (some next) = (Maps.put key (k next) m, refl)
update_next-object key (some i) k m (some (array a)) =
    update_item-object key i k m a (Arrays.at i a)
update_next-object key (some i) k m (some _) = (m, refl)

-- Deleting from a map leaves a map.
delete_parts-object :
    (ps : List Text) (m : Fields) → (n : Fields) × (delete_parts ps (object m) ≡ object n)
unfolding delete_parts delete_leaf update_step
delete_parts-object [] m = (m, refl)
delete_parts-object (p ∷ []) m = elim (Option-cases (parse_part p)) [
  | inl e ↦ (m, rw e)
  | inr (q, e) ↦ (delete_from_map q m, rw e)
]
delete_parts-object (p ∷ q ∷ ps) m = elim (Option-cases (parse_part p)) [
  | inl e ↦ (m, rw e)
  | inr (r, e) ↦
      let (n, f) =
        update_next-object r.key r.index_of (delete_parts (q ∷ ps)) m (Maps.get r.key m) in
      (n, rw e f)
]

-- After deleting a path whose last segment has no array index, the path leads nowhere, whatever
-- the record holds along it.
pub get-delete :
    (obj : Fields) (path : Text)
    → EndsUnindexed (split b'.' path)
    → get (delete obj path) path ≡ none
unfolding get delete
get-delete obj [] h = refl
get-delete obj (c ∷ s) h =
    let (n, e) = delete_parts-object (split b'.' (c ∷ s)) obj in
    rw e (rw (← e) (navigate-delete_parts (split b'.' (c ∷ s)) (object obj) h))
