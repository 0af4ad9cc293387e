-- ===== src/Cache/Bound.antt =====
-- The number of entries stays within maxSize (internal/cache/lru.go).
use cannectors.Prelude.{
  ℕ, suc, ◌≤◌, ◌<◌, ◌≡◌, ◌≢◌, refl, inl, inr, true, false, not, ◌&&◌, Option, none, some, List, [],
  ◌∷◌, Text, arith, same_iff, leb, is_some, is_blank, length, Bool-cases,
}
use cannectors.Prelude.Int.{ℤ}
use cannectors.Prelude.Assoc.{
  lookup, assign, delete, Distinct, lookup-assign, lookup-delete, length-assign, length-delete,
  length-delete-le, Distinct-assign, Distinct-delete,
}
use cannectors.Cache.Lru.{Item, Cache, is_expired, get_found, evict_lru, make_room, set, live}
use cannectors.Cache.Eviction.{In, Visits, lookup_of_In, evict_lru_removes_oldest}

module _ {V : Type 0} where
  -- What every cache built by NewLRUCache and used with keys that are not empty satisfies.
  pub record IsBounded (c : Cache V) : Type 0 where
    pub positive : 0 < c.max_size
    pub within : length c.items ≤ c.max_size
    pub distinct : Distinct c.items
    pub named : lookup [] c.items ≡ none

  first_In : (es : List (Text × Item V)) → 0 < length es → (e : Text × Item V) × In e es
  first_In [] h = elim h [ ]
  first_In (e ∷ es) h = (e, inl refl)

  pub named-delete :
      (k : Text) (m : List (Text × Item V)) → lookup [] m ≡ none → lookup [] (delete k m) ≡ none
  named-delete k m h = rw lookup-delete (ground arith)

  named-assign :
      (k : Text) (v : Item V) (m : List (Text × Item V))
      → k ≢ []
      → lookup [] m ≡ none
      → lookup [] (assign k v m) ≡ none
  named-assign k v m n h = rw lookup-assign (ground (arith, same_iff k []))

  -- A key that the map holds is not the empty one.
  not_blank :
      (k : Text) (m : List (Text × Item V))
      → lookup [] m ≡ none
      → is_some (lookup k m) ≡ true
      → is_blank k ≡ false
  not_blank [] m h s = ground arith
  not_blank (c ∷ k) m h s = refl

  module _ (walk : List (Text × Item V) → List (Text × Item V)) (visits : Visits walk) where
    evict_lru-IsBounded :
        (c : Cache V)
        → IsBounded c
        → 0 < length c.items
        → IsBounded (evict_lru walk c)
          × (suc (length (evict_lru walk c).items) ≡ length c.items)
          × ((evict_lru walk c).max_size ≡ c.max_size)
          × ((key : Text) → lookup key c.items ≡ none → lookup key (evict_lru walk c).items ≡ none)
    evict_lru-IsBounded c b h =
        let (e, i) = first_In c.items h in
        let (k, item, there, least, done) = evict_lru_removes_oldest walk visits c e i in
        let present = lookup_of_In k item c.items there in
        let fewer = length-delete k c.items b.distinct in
        rw (done, not_blank k c.items b.named present)
          (
            record {
              positive = b.positive;
              within = ground (arith, length-delete-le k c.items, b.within);
              distinct = Distinct-delete k c.items b.distinct;
              named = named-delete k c.items b.named;
            },
            ground (arith, present, fewer),
            refl,
            λ key absent. rw lookup-delete (ground arith),
          )

    -- After Set has made room there is a free place for a key that is not in the map.
    make_room-IsBounded :
        (key : Text) (c : Cache V)
        → IsBounded c
        → IsBounded (make_room walk key c)
          × (is_some (lookup key (make_room walk key c).items) ≡ false
              → suc (length (make_room walk key c).items) ≤ (make_room walk key c).max_size)
    unfolding make_room
    make_room-IsBounded key c b =
        elim (Bool-cases (leb c.max_size (length c.items) && not (is_some (lookup key c.items)))) [
          | inl full ↦
              let filled : 0 < length c.items = ground (arith, b.positive) in
              let (b', fewer, cap, absent) = evict_lru-IsBounded c b filled in
              rw full (b', λ _. omega (arith, b.within, fewer, cap))
          | inr room ↦ rw room (b, λ absent. ground (arith, b.within))
        ]

    pub set-IsBounded :
        (key : Text) (v : V) (ttl : ℤ) (now : ℕ) (c : Cache V)
        → key ≢ []
        → IsBounded c
        → IsBounded (set walk key v ttl now c)
    unfolding set
    set-IsBounded key v ttl now c n b =
        let (b', fits) = make_room-IsBounded key c b in
        let room = make_room walk key c in
        record {
          positive = b'.positive;
          within = rw length-assign (ground (arith, b'.within, fits));
          distinct = Distinct-assign key _ room.items b'.distinct;
          named = named-assign key _ room.items n b'.named;
        }

  pub get_found-IsBounded :
      (key : Text) (now : ℕ) (c : Cache V) (o : Option (Item V))
      → lookup key c.items ≡ o
      → IsBounded c
      → IsBounded (get_found key now c o).0
  unfolding get_found
  get_found-IsBounded key now c none e b = record {
    positive = b.positive;
    within = b.within;
    distinct = b.distinct;
    named = b.named;
  }
  get_found-IsBounded key now c (some item) e b = elim (Bool-cases (is_expired now item)) [
    | inl gone ↦ rw gone (record {
      positive = b.positive;
      within = omega (arith, length-delete-le key c.items);
      distinct = Distinct-delete key c.items b.distinct;
      named = named-delete key c.items b.named;
    })
    | inr alive ↦ rw alive (record {
      positive = b.positive;
      within = rw (length-assign, e) b.within;
      distinct = Distinct-assign key _ c.items b.distinct;
      named = rw lookup-assign (ground (arith, same_iff key []));
    })
  ]

  pub lookup-live_none :
      (k : Text) (now : ℕ) (m : List (Text × Item V))
      → lookup k m ≡ none
      → lookup k (live now m) ≡ none
  unfolding lookup live
  lookup-live_none k now [] h = refl
  lookup-live_none k now ((j, item) ∷ m) h = ground (arith, lookup-live_none k now m)

  pub length-live-le : (now : ℕ) (m : List (Text × Item V)) → length (live now m) ≤ length m
  unfolding live
  length-live-le now [] = omega arith
  length-live-le now ((j, item) ∷ m) = ground (arith, length-live-le now m)

  pub Distinct-live : (now : ℕ) (m : List (Text × Item V)) → Distinct m → Distinct (live now m)
  unfolding live
  Distinct-live now [] d = tt
  Distinct-live now ((j, item) ∷ m) d = elim (Bool-cases (is_expired now item)) [
    | inl gone ↦ rw gone (Distinct-live now m d.1)
    | inr alive ↦ rw alive (lookup-live_none j now m d.0, Distinct-live now m d.1)
  ]
