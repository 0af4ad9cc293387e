-- ===== src/Filter/CallMerge/Leaves.antt =====
-- A deep merge as an override of leaves (internal/modules/filter/call_merge.go: deepMerge): an
-- independent description of it, by the paths of keys into nested objects.
use mathlib.Core.Path.{subst}
use cannectors.Prelude.{
  ◌≡◌, refl, sym, ap, ◌∙◌, Bool-cases, same, Option, none, some, List, [], ◌∷◌, Text, inl, inr, ◌⊎◌,
}
use cannectors.Value.{Value, null, bool, int, float, text, array, object, Fields, end, field}
use cannectors.Value.Maps.{get}
use cannectors.Filter.CallMerge.{deep_merge, merge_value}
use cannectors.Filter.CallMerge.Merged.{IsGoValue, IsGoMap, merged, get-deep_merge}

-- the value that a path of keys leads to
abbrev pub value_at : List Text → Option Value → Option Value
value_at [] v = v
value_at (k ∷ ks) (some (object m)) = value_at ks (get k m)
value_at (k ∷ ks) v = none

abbrev pub IsLeaf : Value → Type 0
IsLeaf (object m) = ⊥
IsLeaf v = Unit

-- The path runs through objects, if through anything, and comes to a key that is not there.
abbrev pub LeadsNowhere : List Text → Option Value → Type 0
LeadsNowhere [] none = Unit
LeadsNowhere [] (some v) = ⊥
LeadsNowhere (k ∷ ks) none = Unit
LeadsNowhere (k ∷ ks) (some (object m)) = LeadsNowhere ks (get k m)
LeadsNowhere (k ∷ ks) (some v) = ⊥

abbrev pub IsGoOption : Option Value → Type 0
IsGoOption none = Unit
IsGoOption (some v) = IsGoValue v

pub get-IsGoMap : (k : Text) (m : Fields) → IsGoMap m → IsGoOption (get k m)
unfolding get
get-IsGoMap k end h = tt
get-IsGoMap k (field j w m) h = elim (Bool-cases (same j k)) [
  | inl e ↦ rw e h.1
  | inr e ↦ rw e (get-IsGoMap k m h.2)
]

merged-leaf : (v : Value) (va : Option Value) → IsLeaf v → merge_value v va ≡ v
unfolding merge_value
merged-leaf (object m) va h = absurd h
merged-leaf (array a) va h = refl
merged-leaf null va h = refl
merged-leaf (bool b) va h = refl
merged-leaf (int z) va h = refl
merged-leaf (float f) va h = refl
merged-leaf (text s) va h = refl

value_at-none : (ks : List Text) → value_at ks none ≡ none
value_at-none [] = refl
value_at-none (k ∷ ks) = refl

-- An object that is merged reads, below a key, as the two objects merged there, or as itself where
-- there is no object to merge it with.
merged-object :
    (k : Text) (ks : List Text) (va : Option Value) (mb : Fields)
    → IsGoOption va
    → IsGoMap mb
    → ((ma : Fields) × (va ≡ some (object ma))
        × IsGoMap ma
        × (value_at (k ∷ ks) (some (merge_value (object mb) va))
            ≡ value_at ks (merged (get k ma) (get k mb))))
      ⊎ ((value_at (k ∷ ks) va ≡ none)
          × (value_at (k ∷ ks) (some (merge_value (object mb) va)) ≡ value_at ks (get k mb)))
unfolding merge_value deep_merge
merged-object k ks none mb ga gb = inr (refl, refl)
merged-object k ks (some (object ma)) mb ga gb =
    inl (ma, refl, ga, ap (value_at ks) (get-deep_merge k ma mb ga gb))
merged-object k ks (some (array a)) mb ga gb = inr (refl, refl)
merged-object k ks (some null) mb ga gb = inr (refl, refl)
merged-object k ks (some (bool b)) mb ga gb = inr (refl, refl)
merged-object k ks (some (int z)) mb ga gb = inr (refl, refl)
merged-object k ks (some (float f)) mb ga gb = inr (refl, refl)
merged-object k ks (some (text s)) mb ga gb = inr (refl, refl)

merged_response :
    (ks : List Text) (va vb : Option Value) (v : Value)
    → IsGoOption va
    → IsGoOption vb
    → IsLeaf v
    → value_at ks vb ≡ some v
    → value_at ks (merged va vb) ≡ some v
merged_response ks va none v ga gb leaf e = let nothing = value_at-none ks in absurd cc
merged_response [] va (some w) v ga gb leaf e =
    let same_value : v ≡ w = cc in ap some (merged-leaf w va (subst IsLeaf same_value leaf)) ∙ e
merged_response (k ∷ ks) va (some (object mb)) v ga gb leaf e =
    elim (merged-object k ks va mb ga gb) [
      | inl (ma, _, gma, same_as) ↦
          same_as
          ∙ merged_response ks (get k ma) (get k mb) v (get-IsGoMap k ma gma) (get-IsGoMap k mb gb)
              leaf e
      | inr (_, same_as) ↦ same_as ∙ e
    ]
merged_response (k ∷ ks) va (some w) v ga gb leaf e = absurd cc

merged_record :
    (ks : List Text) (va vb : Option Value) (v : Value)
    → IsGoOption va
    → IsGoOption vb
    → value_at ks va ≡ some v
    → LeadsNowhere ks vb
    → value_at ks (merged va vb) ≡ some v
merged_record ks va none v ga gb e nowhere = e
merged_record [] va (some w) v ga gb e nowhere = absurd nowhere
merged_record (k ∷ ks) va (some (object mb)) v ga gb e nowhere =
    elim (merged-object k ks va mb ga gb) [
      | inl (ma, is_object, gma, same_as) ↦
          same_as
          ∙ merged_record ks (get k ma) (get k mb) v (get-IsGoMap k ma gma) (get-IsGoMap k mb gb)
              (sym (ap (value_at (k ∷ ks)) is_object) ∙ e) nowhere
      | inr (absent, _) ↦ absurd cc
    ]
merged_record (k ∷ ks) va (some w) v ga gb e nowhere = absurd nowhere

-- A deep merge overrides leaf by leaf: a leaf of `b`, at whatever path of keys, stands there in the
-- result; and a value of `a` at a path that leads nowhere in `b` still stands there.
pub value_at-deep_merge :
    (a b : Fields)
    → IsGoMap a
    → IsGoMap b
    → (ks : List Text) (v : Value)
    → ((IsLeaf v × (value_at ks (some (object b)) ≡ some v))
        ⊎ ((value_at ks (some (object a)) ≡ some v) × LeadsNowhere ks (some (object b))))
    → value_at ks (some (object (deep_merge a b))) ≡ some v
unfolding merge_value deep_merge
value_at-deep_merge a b ha hb ks v (inl (leaf, e)) =
    merged_response ks (some (object a)) (some (object b)) v ha hb leaf e
value_at-deep_merge a b ha hb ks v (inr (e, nowhere)) =
    merged_record ks (some (object a)) (some (object b)) v ha hb e nowhere

-- what a path comes to: nothing, an object, or the value itself
pub data Seen : Type 0 where
  nothing an_object : Seen
  leaf : Value → Seen

abbrev pub seen : Option Value → Seen
seen none = nothing
seen (some (object m)) = an_object
seen (some v) = leaf v

-- What a path comes to in two values of which the second is merged into the first, apart from the merge:
-- where both are objects, it goes on in both; and otherwise the second counts, if it is there.
abbrev pub seen_merged : List Text → Option Value → Option Value → Seen
seen_merged ks va none = seen (value_at ks va)
seen_merged [] va (some vb) = seen (some vb)
seen_merged (k ∷ ks) (some (object ma)) (some (object mb)) = seen_merged ks (get k ma) (get k mb)
seen_merged (k ∷ ks) va (some vb) = seen (value_at (k ∷ ks) (some vb))

seen-merge_value : (v : Value) (va : Option Value) → seen (some (merge_value v va)) ≡ seen (some v)
unfolding merge_value
seen-merge_value (object m) none = refl
seen-merge_value (object m) (some (object n)) = refl
seen-merge_value (object m) (some v) = refl
seen-merge_value v va = refl

-- not two objects
abbrev AreApart : Option Value → Value → Type 0
AreApart (some (object n)) (object m) = ⊥
AreApart va v = Unit

merge_value-apart : (va : Option Value) (v : Value) → AreApart va v → merge_value v va ≡ v
unfolding merge_value
merge_value-apart (some (object n)) (object m) h = absurd h
merge_value-apart va (object m) h = refl
merge_value-apart va v h = refl

pub seen-merged :
    (ks : List Text) (va vb : Option Value)
    → IsGoOption va
    → IsGoOption vb
    → seen (value_at ks (merged va vb)) ≡ seen_merged ks va vb
unfolding merge_value deep_merge
seen-merged ks va none ga gb = refl
seen-merged [] va (some v) ga gb = seen-merge_value v va
seen-merged (k ∷ ks) (some (object ma)) (some (object mb)) ga gb =
    ap (λ o. seen (value_at ks o)) (get-deep_merge k ma mb ga gb)
    ∙ seen-merged ks (get k ma) (get k mb) (get-IsGoMap k ma ga) (get-IsGoMap k mb gb)
seen-merged (k ∷ ks) va (some v) ga gb =
    ap (λ w. seen (value_at (k ∷ ks) (some w))) (merge_value-apart va v tt)
