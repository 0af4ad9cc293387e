-- ===== src/Settings.antt =====
-- internal/config: what happens to a configuration before a pipeline is built from it.
pub mod EnvSubst
