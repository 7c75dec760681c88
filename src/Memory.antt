-- ===== src/Memory.antt =====
-- store/memory: the in-memory store. Maps are functions into `Option`, slices are lists. The record
-- ids and the versions, int64 counters that grow by one, are integers that do not wrap.
pub mod Books
pub mod Data
pub mod Undo
pub mod Tx
pub mod Rollback
pub mod Reader
pub mod DueWork
pub mod Writer
pub mod Atomic
pub mod Elsewhere
pub mod Store
pub mod Listing
