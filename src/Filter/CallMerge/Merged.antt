-- ===== src/Filter/CallMerge/Merged.antt =====
-- What a merged record reads as (internal/modules/filter/call_merge.go: deepMerge, cloneCallData,
-- appendUnder).
use mathlib.Core.Path.{ap₂, subst}
use cannectors.Prelude.{
  ◌≡◌, refl, sym, ap, ◌∙◌, arith, false, Option, none, some, Text, same, same_iff,
}
use cannectors.Value.{
  Value, null, bool, int, float, text, array, object, Items, nil, cons, Fields, end, field,
}
use cannectors.Value.Maps.{get, put, get-put}
use cannectors.Filter.CallMerge.{
  copy_onto, clone_call_data, clone_onto, clone_call_map, clone_call_list, merge_onto, merge_value,
  deep_merge,
}

-- No key occurs twice, in the value or in a value inside: what a Go value is.
abbrev mutual
  pub IsGoValue : Value → Type 0
  IsGoValue (object m) = IsGoMap m
  IsGoValue (array a) = IsGoList a
  IsGoValue null = Unit
  IsGoValue (bool b) = Unit
  IsGoValue (int z) = Unit
  IsGoValue (float f) = Unit
  IsGoValue (text s) = Unit

  pub IsGoList : Items → Type 0
  IsGoList nil = Unit
  IsGoList (cons v a) = IsGoValue v × IsGoList a

  pub IsGoMap : Fields → Type 0
  IsGoMap end = Unit
  IsGoMap (field k v m) = (get k m ≡ none) × IsGoValue v × IsGoMap m

-- the entries of one map, then those of another
abbrev followed_by : Fields → Fields → Fields
followed_by end m = m
followed_by (field k v r) m = field k v (followed_by r m)

followed_by_end : (r : Fields) → followed_by r end ≡ r
followed_by_end end = refl
followed_by_end (field k v r) = ap (field k v) (followed_by_end r)

followed_by_entry :
    (r : Fields) (k : Text) (v : Value) (m : Fields)
    → followed_by (followed_by r (field k v end)) m ≡ followed_by r (field k v m)
followed_by_entry end k v m = refl
followed_by_entry (field j w r) k v m = ap (field j w) (followed_by_entry r k v m)

get-followed_by :
    (k j : Text) (v : Value) (r m : Fields)
    → get k (followed_by r (field j v m)) ≡ none
    → (get k r ≡ none) × (same j k ≡ false)
unfolding get
get-followed_by k j v end m h = ground (arith)
get-followed_by k j v (field i w r) m h = ground (arith, get-followed_by k j v r m)

put_new :
    (k : Text) (v : Value) (r : Fields) → get k r ≡ none → put k v r ≡ followed_by r (field k v end)
unfolding get put
put_new k v end h = refl
put_new k v (field j w r) h = ground (arith, put_new k v r)

middle :
    (r : Fields) (k : Text) (v : Value) (m : Fields)
    → IsGoMap (followed_by r (field k v m))
    → (get k r ≡ none) × IsGoValue v
unfolding get
middle end k v m h = (refl, h.1)
middle (field j w r) k v m h = (
  ground (arith, get-followed_by j k v r m h.0, same_iff j k, same_iff k j, (middle r k v m h.2).0),
  (middle r k v m h.2).1,
)

mutual
  unfolding clone_call_data clone_onto clone_call_list

  clone_value : (v : Value) → IsGoValue v → clone_call_data v ≡ v
  clone_value (object m) h = ap object (clone_map end m h)
  clone_value (array a) h = ap array (clone_list a h)
  clone_value null h = refl
  clone_value (bool b) h = refl
  clone_value (int z) h = refl
  clone_value (float f) h = refl
  clone_value (text s) h = refl

  clone_map : (r m : Fields) → IsGoMap (followed_by r m) → clone_onto r m ≡ followed_by r m
  clone_map r end h = sym (followed_by_end r)
  clone_map r (field k v m) h =
      let (new, v_ok) = middle r k v m h in
      let one : put k (clone_call_data v) r ≡ followed_by r (field k v end) =
        ap (λ w. put k w r) (clone_value v v_ok) ∙ put_new k v r new in
      let e = followed_by_entry r k v m in
      ap (λ x. clone_onto x m) one
      ∙ clone_map (followed_by r (field k v end)) m (subst IsGoMap (sym e) h)
      ∙ e

  clone_list : (a : Items) → IsGoList a → clone_call_list a ≡ a
  clone_list nil h = refl
  clone_list (cons v a) h = ap₂ cons (clone_value v h.0) (clone_list a h.1)

-- A clone of a decoded response is equal to it.
pub clone_call_map_same : (m : Fields) → IsGoMap m → clone_call_map m ≡ m
unfolding clone_call_map
clone_call_map_same m h = clone_map end m h

pub clone_call_list_same : (a : Items) → IsGoList a → clone_call_list a ≡ a
clone_call_list_same a h = clone_list a h

-- what a key reads as when the second map is copied onto the first
abbrev pub or_else : Option Value → Option Value → Option Value
or_else va (some vb) = some vb
or_else va none = va

-- and when the second is merged into the first
abbrev pub merged : Option Value → Option Value → Option Value
merged va none = va
merged va (some vb) = some (merge_value vb va)

get-copy_onto :
    (k : Text) (r m : Fields) → IsGoMap m → get k (copy_onto r m) ≡ or_else (get k r) (get k m)
unfolding copy_onto get
get-copy_onto k r end h = refl
get-copy_onto k r (field j v m) h =
    ground (arith, get-copy_onto k (put j v r) m h.2, get-put j k v r, same_iff j k)

get-merge_onto :
    (k : Text) (r b : Fields) → IsGoMap b → get k (merge_onto r b) ≡ merged (get k r) (get k b)
unfolding merge_onto get
get-merge_onto k r end h = refl
get-merge_onto k r (field j vb b) h = ground (
  arith,
  get-merge_onto k (put j (merge_value vb (get j r)) r) b h.2,
  get-put j k (merge_value vb (get j r)) r,
  same_iff j k,
)

or_else-none : (o : Option Value) → or_else none o ≡ o
or_else-none none = refl
or_else-none (some v) = refl

pub get-copy : (k : Text) (m : Fields) → IsGoMap m → get k (copy_onto end m) ≡ get k m
get-copy k m h = get-copy_onto k end m h ∙ (unfold get in or_else-none (get k m))

-- A deep merge reads, under every key, as `merged` says: the value of `b` where there is one, with two
-- objects merged in turn, else the value of `a`.
pub get-deep_merge :
    (k : Text) (a b : Fields)
    → IsGoMap a
    → IsGoMap b
    → get k (deep_merge a b) ≡ merged (get k a) (get k b)
unfolding deep_merge
get-deep_merge k a b ha hb =
    get-merge_onto k (copy_onto end a) b hb ∙ ap (λ o. merged o (get k b)) (get-copy k a ha)

-- A copy of one map onto a copy of another reads as the first one where that has the key.
pub get-copies :
    (k : Text) (a b : Fields)
    → IsGoMap a
    → IsGoMap b
    → get k (copy_onto (copy_onto end a) b) ≡ or_else (get k a) (get k b)
get-copies k a b ha hb =
    get-copy_onto k (copy_onto end a) b hb ∙ ap (λ o. or_else o (get k b)) (get-copy k a ha)
