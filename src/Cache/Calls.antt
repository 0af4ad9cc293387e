-- ===== src/Cache/Calls.antt =====
-- Sequences of calls of the cache, and how its bound holds or fails (internal/cache/lru.go).
use cannectors.Prelude.{
  ℕ, zero, suc, ◌<◌, ◌≡◌, ◌≢◌, refl, ap, true, none, some, List, [], ◌∷◌, Text, arith, leb, length,
}
use cannectors.Prelude.Int.{ℤ, pos, negsuc}
use cannectors.Prelude.Assoc.{lookup, length-assign, length-delete-le, Distinct-delete}
use cannectors.Cache.Lru.{
  Item, Cache, new_cache, get, evict_lru, make_room, set, delete_key, clear, clean_expired,
  positive_or, oldest_from,
}
use cannectors.Cache.Eviction.{Visits}
use cannectors.Cache.Bound.{
  IsBounded, set-IsBounded, get_found-IsBounded, lookup-live_none, length-live-le, Distinct-live,
  named-delete,
}

-- A use of the cache.
pub data Call (V : Type 0) : Type 0 where
  get_call : Text → Call V
  set_call : Text → V → ℤ → Call V
  delete_call : Text → Call V
  clear_call : Call V
  clean_call : Call V

positive-positive_or : (d : ℕ) (n : ℤ) → 0 < d → 0 < positive_or d n
positive-positive_or d (pos zero) h = h
positive-positive_or d (pos (suc n)) h = omega arith
positive-positive_or d (negsuc n) h = h

module _ {V : Type 0} where
  abbrev pub HasKey : Call V → Type 0
  HasKey (set_call key v ttl) = key ≢ []
  HasKey _ = Unit

  abbrev pub Keyed : List (ℕ × Call V) → Type 0
  Keyed [] = Unit
  Keyed ((now, call) ∷ calls) = HasKey call × Keyed calls

  module _ (walk : List (Text × Item V) → List (Text × Item V)) where
    unfoldable pub use_once : ℕ → Call V → Cache V → Cache V
    unfolding get set delete_key clear clean_expired
    use_once now (get_call key) c = (get key now c).0
    use_once now (set_call key v ttl) c = set walk key v ttl now c
    use_once now (delete_call key) c = delete_key key c
    use_once now clear_call c = clear c
    use_once now clean_call c = (clean_expired now c).0

    -- Calls in the order in which they take the lock, each at its time.
    unfoldable pub use_all : List (ℕ × Call V) → Cache V → Cache V
    unfolding use_once
    use_all [] c = c
    use_all ((now, call) ∷ calls) c = use_all calls (use_once now call c)

    use_once-IsBounded :
        Visits walk
        → (now : ℕ) (call : Call V) (c : Cache V) → HasKey call
        → IsBounded c
        → IsBounded (use_once now call c)
    unfolding use_once
    use_once-IsBounded vs now (get_call key) c k b =
        get_found-IsBounded key now c (lookup key c.items) refl b
    use_once-IsBounded vs now (set_call key v ttl) c k b = set-IsBounded walk vs key v ttl now c k b
    use_once-IsBounded vs now (delete_call key) c k b = record {
      positive = b.positive;
      within = omega (arith, length-delete-le key c.items);
      distinct = Distinct-delete key c.items b.distinct;
      named = named-delete key c.items b.named;
    }
    use_once-IsBounded vs now clear_call c k b = record {
      positive = b.positive;
      within = omega arith;
      distinct = tt;
      named = unfold lookup in refl;
    }
    use_once-IsBounded vs now clean_call c k b = record {
      positive = b.positive;
      within = omega (arith, length-live-le now c.items);
      distinct = Distinct-live now c.items b.distinct;
      named = lookup-live_none [] now c.items b.named;
    }

    use_all-IsBounded :
        Visits walk
        → (calls : List (ℕ × Call V)) (c : Cache V) → Keyed calls
        → IsBounded c
        → IsBounded (use_all calls c)
    unfolding use_all
    use_all-IsBounded vs [] c k b = b
    use_all-IsBounded vs ((now, call) ∷ calls) c k b =
        use_all-IsBounded vs calls (use_once now call c) k.1
          (use_once-IsBounded vs now call c k.0 b)

    -- Whatever the configuration, the calls, their times and the iteration order of the map, a cache
    -- used with keys that are not empty never holds more entries than its positive maxSize, nor a
    -- key twice.
    pub use_all-new_cache-IsBounded :
        (max_size ttl : ℤ) (calls : List (ℕ × Call V))
        → Visits walk
        → Keyed calls
        → IsBounded (use_all calls (new_cache max_size ttl))
    use_all-new_cache-IsBounded max_size ttl calls vs k =
        use_all-IsBounded vs calls (new_cache max_size ttl) k (
          unfold new_cache in
          record {
            positive = positive-positive_or 1000 max_size (omega arith);
            within = omega arith;
            distinct = tt;
            named = unfold lookup in refl;
          })

    -- In a full cache whose least recently used entry has the empty key, storing under a new key
    -- evicts nothing, and the cache grows past maxSize.
    pub set_overflows :
        (c : Cache V) (t : ℕ) (key : Text) (v : V) (ttl : ℤ) (now : ℕ)
        → oldest_from none (walk c.items) ≡ some ([], t)
        → length c.items ≡ c.max_size
        → lookup key c.items ≡ none
        → length (set walk key v ttl now c).items ≡ suc (set walk key v ttl now c).max_size
    unfolding set
    set_overflows c t key v ttl now oldest full new =
        let kept : evict_lru walk c ≡ c = (unfold evict_lru in rw oldest) in
        let crowded : leb c.max_size (length c.items) ≡ true = ground arith in
        let room : make_room walk key c ≡ c =
          (unfold make_room in rw (crowded, make_room) (rw (new, make_room) kept)) in
        rw room (rw (length-assign, new) (ap suc full))
