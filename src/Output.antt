-- ===== src/Output.antt =====
-- internal/modules/output: how records are grouped into requests, and the send loops of httpRequest.
pub mod Batching
pub mod Chunks
pub mod HttpRequest
pub mod Database
pub mod Accounting
pub mod Stops
