-- ===== src/SelfUpdate.antt =====
-- agent/src/self_update.rs: from a release to the agent's own binary.
pub mod Files
pub mod Replace
pub mod Binary
pub mod Release
pub mod Perform
