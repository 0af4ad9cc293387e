-- ===== src/Database.antt =====
-- internal/database: the errors of the databases.
pub mod Errors
