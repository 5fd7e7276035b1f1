-- ===== src/Db.antt =====
-- internal/db: the storage interface (store.go) and its implementation in memory (memory.go).
pub mod Types
pub mod Store
pub mod Memory
pub mod Supabase
pub mod Examples
mod Tests
