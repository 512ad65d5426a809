-- ===== src/Tests.antt =====
-- The theorems at concrete inputs.
mod Handlers
mod Queues
mod Logs
mod Outputs
mod Tasks
mod Runs
mod Updates
mod Services
