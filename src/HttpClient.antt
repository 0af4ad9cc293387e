-- ===== src/HttpClient.antt =====
-- internal/httpclient: how an HTTP request is tried.
pub mod Attempt
