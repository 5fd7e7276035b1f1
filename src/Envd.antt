-- ===== src/Envd.antt =====
-- pkg/envd: the agent that runs in a sandbox: the table of its processes and its files.
pub mod Process
pub mod Filesystem
mod Tests
