-- ===== src/Filter.antt =====
-- internal/modules/filter: the filter modules. A filter maps a batch of records to a batch.
pub mod Batch
pub mod Fieldwise
pub mod Reserved
pub mod CallMerge
pub mod Condition
