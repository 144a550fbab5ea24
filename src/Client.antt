-- ===== src/Client.antt =====
-- crates/lluma-client/src/lib.rs: the client.
pub mod Error
pub mod Verify
pub mod Calls
pub mod Batches
pub mod Acquire
pub mod Snapshots
pub mod Answers
