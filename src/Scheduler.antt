-- ===== src/Scheduler.antt =====
-- internal/scheduler/scheduler.go.
pub mod Types
pub mod Monad
pub mod Select
pub mod Ops
pub mod Placement
pub mod Books
mod Cases
pub mod Accounts
pub mod Expiry
pub mod Steps
pub mod Balance
pub mod Room
pub mod Capacity
pub mod Lifecycle
pub mod Errors
pub mod Outcomes
pub mod Ticks
mod Sweep
pub mod Clean
pub mod RoundTrip
pub mod Examples
mod Tests
