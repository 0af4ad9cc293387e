-- ===== src/Auth.antt =====
-- internal/auth: how requests are authenticated.
pub mod TokenCache
