-- ===== src/ErrHandling.antt =====
-- internal/errhandling: the classification of errors, retries, and the error markers on records.
pub mod Classify
pub mod Retry
pub mod Marker
