-- ===== src/Cache.antt =====
-- internal/cache/lru.go: the cache with a bound on its entries and a time to live.
pub mod Lru
pub mod Eviction
pub mod Bound
pub mod Calls
pub mod Reads
