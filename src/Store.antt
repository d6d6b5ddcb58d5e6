-- ===== src/Store.antt =====
-- internal/store: the catalog of artifacts and its counters.
pub mod Types
pub mod Kinds
pub mod Object
pub mod Db
pub mod Interface
pub mod Notifying
