-- ===== src/RecordPath/RoundTrip.antt =====
-- What `Set` writes, `Get` reads back (internal/recordpath/path.go).
use cannectors.Prelude.{
  ℕ, ◌+◌, ◌-◌, ◌<◌, ◌≡◌, refl, sym, ◌∙◌, Option, none, some, List, [], ◌∷◌, Text, arith, inl, inr,
  Option-cases, same_refl,
}
use cannectors.Value.{Value, object, Items, Fields}
use cannectors.Value.Maps
use cannectors.Value.Maps.{get-put}
use cannectors.Value.Arrays
use cannectors.Value.Arrays.{size, size-nulls, size-append, at-write_self}
use cannectors.RecordPath.Segment.{Part, split-cons, parse_part}
use cannectors.RecordPath.Access.{
  Error, ◌>>=◌, index_into, get_from_map, get_from_array, navigate_step, navigate, get, grow,
  descend, assign, set_parts, set, array_or_new, map_or_new,
}

lt-size-grow : (i : ℕ) (a : Items) → i < size (grow i a)
unfolding grow
lt-size-grow i a =
    ground (arith, size-append a (Arrays.nulls (i + 1 - size a)), size-nulls (i + 1 - size a))

at-write-grow : (i : ℕ) (v : Value) (a : Items) → Arrays.at i (Arrays.write i v (grow i a)) ≡ some v
at-write-grow i v a = at-write_self i v (grow i a) (lt-size-grow i a)

get-put_self : (k : Text) (v : Value) (m : Fields) → Maps.get k (Maps.put k v m) ≡ some v
get-put_self k v m = rw (get-put, same_refl)

abbrev part : Text → Option ℕ → Part
part key ix = record { key = key; index_of = ix }

-- What a segment leads to, once it is parsed.
abbrev read : Part → Value → Option Value
read p current = do next ← get_from_map p.key current; index_into p.index_of next

read-assign :
    (key : Text) (ix : Option ℕ) (v : Value) (m : Fields)
    → read (part key ix) (object (assign (some (part key ix)) v m).0) ≡ some v
unfolding assign get_from_map
read-assign key none v m = rw get-put_self
read-assign key (some i) v m =
    rw get-put_self (unfold get_from_array in at-write-grow i v (array_or_new (Maps.get key m)))

read-descend :
    (key : Text) (ix : Option ℕ) (k : Fields → Fields × Option Error) (m : Fields)
    → (c : Fields) × (read (part key ix) (object (descend (some (part key ix)) k m).0)
        ≡ some (object (k c).0))
      × ((descend (some (part key ix)) k m).1 ≡ (k c).1)
unfolding descend get_from_map
read-descend key none k m = (map_or_new (Maps.get key m), rw get-put_self, refl)
read-descend key (some i) k m =
    let a = grow i (array_or_new (Maps.get key m)) in
    let c = map_or_new (Arrays.at i a) in
    (
      c,
      rw get-put_self (
          unfold get_from_array in
          at-write-grow i (object (k c).0) (array_or_new (Maps.get key m))),
      refl,
    )

navigate-set_parts :
    (p : Text) (ps : List Text) (v : Value) (m : Fields)
    → (set_parts (p ∷ ps) v m).1 ≡ none
    → navigate (p ∷ ps) (object (set_parts (p ∷ ps) v m).0) ≡ some v
unfolding navigate navigate_step set_parts
navigate-set_parts p [] v m h = elim (Option-cases (parse_part p)) [
  | inl bad ↦ absurd (unfold assign in ground (arith, bad))
  | inr (q, e) ↦ rw e (rw (read-assign q.key q.index_of v m))
]
navigate-set_parts p (q ∷ ps) v m h = elim (Option-cases (parse_part p)) [
  | inl bad ↦ absurd (unfold descend in ground (arith, bad))
  | inr (r, e) ↦
      let (c, there, same_error) = read-descend r.key r.index_of (set_parts (q ∷ ps) v) m in
      rw e (rw there (navigate-set_parts q ps v c (sym same_error ∙ (rw e at h))))
]

-- A path that `Set` accepts reads back, with `Get`, the value that was written: through nested
-- maps, array indices, and the intermediate maps and array elements that the write created.
pub get-set :
    (obj : Fields) (path : Text) (v : Value)
    → (set obj path v).1 ≡ none
    → get (set obj path v).0 path ≡ some v
unfolding get set
get-set obj [] v h = cc
get-set obj (c ∷ s) v h =
    let (p, ps, e) = split-cons b'.' (c ∷ s) in rw e (navigate-set_parts p ps v obj (rw e at h))
