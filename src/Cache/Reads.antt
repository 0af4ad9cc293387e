-- ===== src/Cache/Reads.antt =====
-- What a client of the cache sees: the value under a key until its time is over
-- (internal/cache/lru.go).
use cannectors.Prelude.{
  ℕ, ◌+◌, ◌≤◌, ◌<◌, ◌≡◌, refl, ◌⊎◌, inl, inr, true, Option, none, some, List, [], ◌∷◌, Text, arith,
  same, same_iff, leb, is_some, length, if◌then◌else◌, Bool-cases, Option-cases,
}
use cannectors.Prelude.Int.{ℤ}
use cannectors.Prelude.Assoc.{lookup, Distinct, lookup-assign, lookup-delete}
use cannectors.Cache.Lru.{
  Item, Cache, is_expired, get_found, get, make_room, set, delete_key, clear, live, expired_count,
  clean_expired, positive_or,
}
use cannectors.Cache.Bound.{lookup-live_none}

module _ {V : Type 0} where
  -- the value of an entry while its time is not over
  pub shown : ℕ → Option (Item V) → Option V
  unfolding is_expired
  shown t none = none
  shown t (some item) = if is_expired t item then none else some item.value

  -- The cache as a map whose values have a last moment: what stands under a key at a time.
  unfoldable pub view : Cache V → Text → ℕ → Option V
  unfolding shown
  view c key t = shown t (lookup key c.items)

  -- `Get` returns what is in view at its time; it changes nothing that is in view from then on; and
  -- it counts a hit if it returned a value and a miss if it did not.
  pub view-get :
      (key : Text) (now : ℕ) (c : Cache V)
      → ((get key now c).1 ≡ view c key now)
        × ((j : Text) (t : ℕ) → now ≤ t → view (get key now c).0 j t ≡ view c j t)
        × ((get key now c).0.hits ≡ (if is_some (view c key now) then c.hits + 1 else c.hits))
        × ((get key now c).0.misses ≡ (if is_some (view c key now) then c.misses else c.misses + 1))
  unfolding get view
  view-get key now c = elim (Option-cases (lookup key c.items)) [
    | inl absent ↦ rw (absent, get_found) (refl, λ j t h. refl, refl, refl)
    | inr (item, found) ↦ elim (Bool-cases (is_expired now item)) [
      | inl gone ↦
          rw (found, get_found)
            (rw gone (
              refl,
              λ j t h. ground (arith, lookup-delete key j c.items, same_iff key j, found),
              refl,
              refl,
            ))
      | inr alive ↦
          rw (found, get_found)
            (rw alive (
              refl,
              λ j t h. ground (
                arith,
                lookup-assign key j (record item { last_used = now }) c.items,
                same_iff key j,
                found,
              ),
              refl,
              refl,
            ))
    ]
  ]

  module _ (walk : List (Text × Item V) → List (Text × Item V)) where
    -- Without an eviction, `Set` puts the value in view under its key until its time is over, a time
    -- that starts with the call, and leaves every other key in view as it was.
    pub view-set :
        (key : Text) (v : V) (ttl : ℤ) (now : ℕ) (c : Cache V)
        → (length c.items < c.max_size) ⊎ (is_some (lookup key c.items) ≡ true)
        → (j : Text) (t : ℕ)
        → view (set walk key v ttl now c) j t ≡ (
            if same key j
            then (if leb t (now + positive_or c.default_ttl ttl) then some v else none)
            else view c j t)
    unfolding set view
    view-set key v ttl now c room j t =
        let kept : make_room walk key c ≡ c = (unfold make_room in ground arith) in
        rw kept (rw lookup-assign (ground arith))

  lookup-live :
      (k : Text) (now : ℕ) (m : List (Text × Item V)) (t : ℕ)
      → Distinct m
      → now ≤ t
      → shown t (lookup k (live now m)) ≡ shown t (lookup k m)
  unfolding lookup live shown
  lookup-live k now [] t d h = refl
  lookup-live k now ((j, item) ∷ m) t d h =
      ground (arith, same_iff j k, lookup-live k now m t d.1, lookup-live_none j now m)

  -- `Delete` and `Clear` take keys out of view for good, and `CleanExpired` changes nothing that is
  -- in view from its time on and reports the number of entries that it removed.
  pub removals_view :
      (key : Text) (now : ℕ) (c : Cache V)
      → Distinct c.items
      → ((j : Text) (t : ℕ)
          → view (delete_key key c) j t ≡ (if same key j then none else view c j t))
        × ((j : Text) (t : ℕ) → view (clear c) j t ≡ none)
        × ((j : Text) (t : ℕ) → now ≤ t → view (clean_expired now c).0 j t ≡ view c j t)
        × (length (clean_expired now c).0.items + (clean_expired now c).1 ≡ length c.items)
  unfolding delete_key clear clean_expired view
  removals_view key now c d = (
    λ j t. rw lookup-delete (ground arith),
    λ j t. unfold lookup in refl,
    λ j t h. lookup-live j now c.items t d h,
    counted c.items,
  )
    where
      counted : (m : List (Text × Item V)) → length (live now m) + expired_count now m ≡ length m
      counted [] = omega arith
      counted ((j, item) ∷ m) = ground (arith, counted m)
