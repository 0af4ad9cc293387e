-- ===== src/ErrHandling/Retry.antt =====
-- internal/errhandling/retry.go and pkg/connector/retry.go: the retry configuration and the executor
-- that runs a function until it succeeds, fails for good, or has used up its attempts.
pub mod Delay
pub mod DelayBounds
pub mod Executor
pub mod Equivalence
pub mod Outcomes
pub mod Sequences
