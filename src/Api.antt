-- ===== src/Api.antt =====
-- internal/api: the storage layer (store.go) and the handlers (sandbox.go, handlers.go).
pub mod Models
pub mod Bodies
pub mod Records
pub mod Convert
pub mod Store
pub mod Handlers
pub mod Rows
mod Tests
