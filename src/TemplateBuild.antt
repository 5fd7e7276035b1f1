-- ===== src/TemplateBuild.antt =====
-- internal/templatebuild: the service that builds templates.
pub mod Types
pub mod Log
pub mod Rootfs
pub mod Steps
pub mod Artifacts
pub mod Process
pub mod Service
pub mod Examples
mod Tests
