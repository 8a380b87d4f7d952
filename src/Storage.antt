-- ===== src/Storage.antt =====
-- engine/internal/storage: the key families, the backup stream and the managed store.
pub mod Keys
pub mod Successor
pub mod Mvcc
pub mod Iterator
pub mod Backup
pub mod Memory
