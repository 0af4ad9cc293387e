-- ===== src/Persistence.antt =====
-- internal/persistence: what a pipeline remembers between executions.
pub mod Config
pub mod IdExtractor
pub mod StateStore
pub mod Durability
