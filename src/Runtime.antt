-- ===== src/Runtime.antt =====
-- internal/runtime/pipeline.go: an execution of a pipeline, input, then filters, then output.
pub mod Types
pub mod Failure
pub mod Stages
pub mod Execute
pub mod Permitted
pub mod Permissions
pub mod Outcome
pub mod Unreachable
pub mod Totals
