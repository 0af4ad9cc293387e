-- ===== src/Tests/Caches.antt =====
-- A small cache in use (internal/cache/lru.go).
use cannectors.Prelude.{ℕ, suc, ◌≡◌, refl, List, [], ◌∷◌, Text, codes, same, length}
use cannectors.Prelude.Int.{pos}
use cannectors.Prelude.Assoc.{lookup}
use cannectors.Cache.Lru.{
  Item, Cache, new_cache, get, evict_lru, set, delete_key, clear, clean_expired, positive_or,
}
use cannectors.Cache.Eviction.{Visits}
use cannectors.Cache.Bound.{IsBounded}
use cannectors.Cache.Calls.{
  Call, get_call, set_call, use_all, use_all-new_cache-IsBounded, set_overflows,
}

abbrev in_order : List (Text × Item ℕ) → List (Text × Item ℕ)
in_order m = m

abbrev in_order-Visits : Visits in_order
in_order-Visits = record { complete = λ m e h. h; sound = λ m e h. h }

abbrev one : Text × Item ℕ
one = (codes "a", record { value = 1; expires_at = 100; last_used = 5 })

abbrev two : Text × Item ℕ
two = (codes "b", record { value = 2; expires_at = 100; last_used = 3 })

abbrev nameless : Text × Item ℕ
nameless = ([], record { value = 0; expires_at = 100; last_used = 1 })

abbrev holding : List (Text × Item ℕ) → Cache ℕ
holding es = record {
  max_size = 2;
  default_ttl = 50;
  items = es;
  hits = 0;
  misses = 0;
  evictions = 0;
}

abbrev calls : List (ℕ × Call ℕ)
calls =
    (1, set_call (codes "a") 1 (pos 0))
    ∷ (2, set_call (codes "b") 2 (pos 9))
    ∷ (3, get_call (codes "a"))
    ∷ (4, set_call (codes "c") 3 (pos 0))
    ∷ []

use_all-new_cache-IsBounded_example : IsBounded (use_all in_order calls (new_cache (pos 2) (pos 0)))
use_all-new_cache-IsBounded_example =
    use_all-new_cache-IsBounded in_order (pos 2) (pos 0) calls in_order-Visits
      ((λ e. cc), ((λ e. cc), (tt, ((λ e. cc), tt))))

set_overflows_example :
    length (set in_order (codes "c") 3 (pos 0) 9 (holding (nameless ∷ one ∷ []))).items
    ≡ suc (set in_order (codes "c") 3 (pos 0) 9 (holding (nameless ∷ one ∷ []))).max_size
unfolding cannectors.Cache.Lru.oldest_from lookup same
set_overflows_example =
    set_overflows in_order (holding (nameless ∷ one ∷ [])) 1 (codes "c") 3 (pos 0) 9 refl refl refl
