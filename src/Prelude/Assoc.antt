-- ===== src/Prelude/Assoc.antt =====
-- Go's maps with string keys as association lists: lookup, assignment, delete, and the number of
-- entries where no key occurs twice.
use Prim.Native.Nat.{suc, ◌≤◌}
use mathlib.Core.Path.{◌≡◌, refl}
use mathlib.Core.Logic.{inl, inr}
use mathlib.Core.Option.{Option, none, some}
use mathlib.Core.List.{List, [], ◌∷◌}
use native.Mathlib.Omega.{arith}
use cannectors.Prelude.Tests.{if◌then◌else◌, is_some, Bool-cases}
use cannectors.Prelude.Lists.{length}
use cannectors.Prelude.Texts.{Text, same, same_iff}

module _ {V : Type 0} where
  unfoldable pub lookup : Text → List (Text × V) → Option V
  lookup k [] = none
  lookup k ((j, v) ∷ m) = if same j k then some v else lookup k m

  unfoldable pub assign : Text → V → List (Text × V) → List (Text × V)
  assign k v [] = (k, v) ∷ []
  assign k v ((j, w) ∷ m) = if same j k then (j, v) ∷ m else (j, w) ∷ assign k v m

  unfoldable pub delete : Text → List (Text × V) → List (Text × V)
  delete k [] = []
  delete k ((j, v) ∷ m) = let rest = delete k m in if same j k then rest else (j, v) ∷ rest

  abbrev pub Distinct : List (Text × V) → Type 0
  Distinct [] = Unit
  Distinct ((k, v) ∷ m) = (lookup k m ≡ none) × Distinct m

  pub lookup-assign :
      (k j : Text) (v : V) (m : List (Text × V))
      → lookup j (assign k v m) ≡ (if same k j then some v else lookup j m)
  unfolding lookup assign
  lookup-assign k j v [] = refl
  lookup-assign k j v ((i, w) ∷ m) =
      ground (arith, same_iff k j, same_iff i k, same_iff i j, lookup-assign k j v m)

  pub lookup-delete :
      (k j : Text) (m : List (Text × V))
      → lookup j (delete k m) ≡ (if same k j then none else lookup j m)
  unfolding lookup delete
  lookup-delete k j [] = ground arith
  lookup-delete k j ((i, w) ∷ m) =
      ground (arith, same_iff k j, same_iff i k, same_iff i j, lookup-delete k j m)

  pub length-assign :
      (k : Text) (v : V) (m : List (Text × V))
      → length (assign k v m) ≡ (if is_some (lookup k m) then length m else suc (length m))
  unfolding lookup assign
  length-assign k v [] = refl
  length-assign k v ((i, w) ∷ m) = ground (arith, length-assign k v m)

  pub length-delete-le : (k : Text) (m : List (Text × V)) → length (delete k m) ≤ length m
  unfolding delete
  length-delete-le k [] = omega arith
  length-delete-le k ((i, w) ∷ m) = ground (arith, length-delete-le k m)

  delete_absent : (k : Text) (m : List (Text × V)) → lookup k m ≡ none → delete k m ≡ m
  unfolding lookup delete
  delete_absent k [] h = refl
  delete_absent k ((i, w) ∷ m) h = ground (arith, delete_absent k m)

  pub length-delete :
      (k : Text) (m : List (Text × V))
      → Distinct m
      → length m ≡ (if is_some (lookup k m) then suc (length (delete k m)) else length (delete k m))
  unfolding lookup delete
  length-delete k [] d = refl
  length-delete k ((i, w) ∷ m) d =
      ground (arith, same_iff i k, length-delete k m d.1, delete_absent k m)

  pub Distinct-assign :
      (k : Text) (v : V) (m : List (Text × V)) → Distinct m → Distinct (assign k v m)
  unfolding assign
  Distinct-assign k v [] d = (unfold lookup in refl, tt)
  Distinct-assign k v ((i, w) ∷ m) d = elim (Bool-cases (same i k)) [
    | inl eq ↦ rw eq d
    | inr ne ↦ rw ne (
      ground (arith, lookup-assign k i v m, same_iff i k, same_iff k i),
      Distinct-assign k v m d.1,
    )
  ]

  pub Distinct-delete : (k : Text) (m : List (Text × V)) → Distinct m → Distinct (delete k m)
  unfolding delete
  Distinct-delete k [] d = tt
  Distinct-delete k ((i, w) ∷ m) d = elim (Bool-cases (same i k)) [
    | inl eq ↦ rw eq (Distinct-delete k m d.1)
    | inr ne ↦
        rw ne
          (ground (arith, lookup-delete k i m, same_iff i k, same_iff k i), Distinct-delete k m d.1)
  ]
