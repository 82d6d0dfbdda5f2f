-- ===== src/Forwarder.antt =====
-- cmd/log-forwarder: the program that follows a log file and sends its lines to the service.
pub mod Config
pub mod Checkpoint
pub mod Follower
pub mod Parser
pub mod Delivery
pub mod Metrics
pub mod Handler
pub mod Integrity
pub mod Start
