-- ===== src/Storage.antt =====
-- internal/storage: the interface of a backend, and the backend in memory.
pub mod Types
pub mod Memory
pub mod S3
