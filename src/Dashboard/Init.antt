-- ===== src/Dashboard/Init.antt =====
-- cmd/security-dashboard/init.go: the command that proposes checks for a project and keeps config.json.
pub mod Stack
pub mod Detect
pub mod Proposal
pub mod Proposals
pub mod Merge
pub mod Audit
pub mod Raw
pub mod World
pub mod Seeds
pub mod Load
pub mod Run
