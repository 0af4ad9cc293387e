-- ===== src/Cache/Lru.antt =====
-- internal/cache/lru.go: the entries, the counters and the methods of LRUCache. Times are
-- nanoseconds; each method takes the time at which it reads the clock. Locks are not modelled: a
-- method runs as a whole.
use cannectors.Prelude.{
  ℕ, zero, suc, ◌+◌, ◌*◌, Bool, not, ◌&&◌, Option, none, some, List, [], ◌∷◌, Text, ltb, leb,
  is_some, is_blank, length, if◌then◌else◌,
}
use cannectors.Prelude.Int.{ℤ, pos, negsuc}
use cannectors.Prelude.Assoc.{lookup, assign, delete}

-- cacheItem
pub record Item (V : Type 0) : Type 0 where
  pub value : V
  pub expires_at : ℕ
  pub last_used : ℕ

-- LRUCache
pub record Cache (V : Type 0) : Type 0 where
  pub max_size : ℕ
  pub default_ttl : ℕ
  pub items : List (Text × Item V)
  pub hits : ℕ
  pub misses : ℕ
  pub evictions : ℕ

-- 5 * time.Minute
abbrev pub default_ttl_ns : ℕ
default_ttl_ns = 5 * 60 * 1000000000

-- n, and the default where n <= 0
abbrev pub positive_or : ℕ → ℤ → ℕ
positive_or d (pos zero) = d
positive_or d (pos (suc n)) = suc n
positive_or d (negsuc n) = d

module _ {V : Type 0} where
  -- isExpired: now is after expiresAt
  unfoldable pub is_expired : ℕ → Item V → Bool
  is_expired now item = ltb item.expires_at now

  -- NewLRUCache
  unfoldable pub new_cache : ℤ → ℤ → Cache V
  new_cache max_size ttl = record {
    max_size = positive_or 1000 max_size;
    default_ttl = positive_or default_ttl_ns ttl;
    items = [];
    hits = 0;
    misses = 0;
    evictions = 0;
  }

  -- Get, once the map has been looked at
  unfoldable pub get_found : Text → ℕ → Cache V → Option (Item V) → Cache V × Option V
  unfolding is_expired
  get_found key now c none = (record c { misses = c.misses + 1 }, none)
  get_found key now c (some item) =
      if is_expired now item
      then (record c { items = delete key c.items; misses = c.misses + 1 }, none)
      else (
        record c {
          items = assign key (record item { last_used = now }) c.items;
          hits = c.hits + 1;
        },
        some item.value,
      )

  -- Get
  unfoldable pub get : Text → ℕ → Cache V → Cache V × Option V
  unfolding get_found
  get key now c = get_found key now c (lookup key c.items)

  -- The loop of evictLRU over the entries in the order that `range` gives them.
  unfoldable pub oldest_from : Option (Text × ℕ) → List (Text × Item V) → Option (Text × ℕ)
  oldest_from best [] = best
  oldest_from none ((k, item) ∷ es) = oldest_from (some (k, item.last_used)) es
  oldest_from (some (b, t)) ((k, item) ∷ es) =
      oldest_from (if ltb item.last_used t then some (k, item.last_used) else some (b, t)) es

  unfoldable pub evict_found : Option (Text × ℕ) → Cache V → Cache V
  evict_found none c = c
  evict_found (some (k, t)) c =
      if is_blank k then c else record c { items = delete k c.items; evictions = c.evictions + 1 }

  -- `walk` is the order in which a `range` over the map visits the entries.
  module _ (walk : List (Text × Item V) → List (Text × Item V)) where
    -- evictLRU
    unfoldable pub evict_lru : Cache V → Cache V
    unfolding oldest_from evict_found
    evict_lru c = evict_found (oldest_from none (walk c.items)) c

    -- Set, where room has been made
    unfoldable pub make_room : Text → Cache V → Cache V
    unfolding evict_lru
    make_room key c =
        if leb c.max_size (length c.items) && not (is_some (lookup key c.items))
        then evict_lru c
        else c

    -- Set
    unfoldable pub set : Text → V → ℤ → ℕ → Cache V → Cache V
    unfolding make_room
    set key value ttl now c =
        let room = make_room key c in
        record room {
          items =
              assign key
                (record {
                  value = value;
                  expires_at = now + positive_or c.default_ttl ttl;
                  last_used = now;
                })
                room.items;
        }

  -- Delete
  unfoldable pub delete_key : Text → Cache V → Cache V
  delete_key key c = record c { items = delete key c.items }

  -- Clear
  unfoldable pub clear : Cache V → Cache V
  clear c = record c { items = [] }

  -- Size
  abbrev pub size : Cache V → ℕ
  size c = length c.items

  unfoldable pub live : ℕ → List (Text × Item V) → List (Text × Item V)
  unfolding is_expired
  live now [] = []
  live now ((k, item) ∷ es) =
      let rest = live now es in if is_expired now item then rest else (k, item) ∷ rest

  unfoldable pub expired_count : ℕ → List (Text × Item V) → ℕ
  unfolding is_expired
  expired_count now [] = 0
  expired_count now ((k, item) ∷ es) =
      let rest = expired_count now es in if is_expired now item then suc rest else rest

  -- CleanExpired: deletes every expired entry and counts them.
  unfoldable pub clean_expired : ℕ → Cache V → Cache V × ℕ
  unfolding live expired_count
  clean_expired now c = (record c { items = live now c.items }, expired_count now c.items)
