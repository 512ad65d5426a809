-- ===== src/Log.antt =====
-- Task logs, agent/src/main.rs: `TaskLogSyncState`, which turns the output of a task into lines of a
-- local file and brings them to the server.
pub mod Chunk
pub mod Writer
pub mod State
pub mod Sync
