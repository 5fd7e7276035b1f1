-- ===== src/Orchestrator.antt =====
-- internal/orchestrator, and its client internal/scheduler/orchestrator_client.go: a node of the
-- cluster, from the scheduler's call down to the commands that run containers.
pub mod Types
pub mod Docker
pub mod Firecracker
pub mod DockerSdk
pub mod Agent
pub mod Client
pub mod Edge
pub mod Exec
pub mod Reports
mod Tests
