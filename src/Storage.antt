-- ===== src/Storage.antt =====
-- The storage side (relay/internal/storage/postgres.go).
pub mod Database
pub mod Stores
pub mod Cursors
pub mod Events
pub mod Memory
pub mod Sequence
pub mod Saving
pub mod Cancelled
pub mod Offline
mod Examples
pub mod Opening
