-- ===== src/RecordPath.antt =====
-- internal/recordpath/path.go: reading, writing and deleting a nested field of a record by a path
-- like `user.items[0].name`. A write changes the record it is given, also where it fails half-way,
-- so `set` returns the record beside the error. Slices that share a backing array are not modelled.
pub mod Segment
pub mod Access
pub mod RoundTrip
pub mod Root
pub mod Deletion
