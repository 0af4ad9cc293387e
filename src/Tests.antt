-- ===== src/Tests.antt =====
-- Concrete runs of the modelled code, at which the theorems' hypotheses hold.
mod Paths
mod Errors
mod Retries
mod Markers
mod Filters
mod Caches
mod Runs
mod Outputs
mod Stores
mod Schedulers
mod Merges
mod Pages
mod Queries
mod Databases
mod EnvVars
mod Conditions
mod Tokens
mod Attempts
mod DatabaseErrors
mod Webhooks
