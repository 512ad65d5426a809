-- ===== src/Executor.antt =====
-- agent/src/executor.rs: how a task is run, and the output of its commands.
pub mod Output
pub mod Stream
pub mod Capture
pub mod Command
pub mod Process
pub mod Paths
pub mod Script
pub mod Runner
