-- ===== src/Client.antt =====
-- agent/src/client.rs
pub mod Message
pub mod Connection
pub mod Queue
pub mod Sender
pub mod Session
pub mod Fetch
