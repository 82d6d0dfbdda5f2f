-- ===== src/Tests.antt =====
-- Runs on concrete inputs, with a codec that is small enough to compute by hand.
mod Toy
mod Store
mod Access
mod Reading
mod Routes
mod Clients
mod Follower
mod Cli
mod Dashboard
mod Tasks
mod Forwarding
mod Init
mod Runs
mod Pages
mod Start
