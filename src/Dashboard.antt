-- ===== src/Dashboard.antt =====
-- cmd/security-dashboard: the command that runs the security checks and keeps the schedule of manual tasks.
pub mod Words
pub mod Tasks
pub mod Checks
pub mod Render
pub mod Config
pub mod Runs
pub mod Page
pub mod Flags
pub mod Init
pub mod Command
