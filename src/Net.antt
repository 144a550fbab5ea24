-- ===== src/Net.antt =====
-- crates/lluma-net: what a client sends through the relay, and the bootstrap with several sources.
pub mod Framing
pub mod Agent
pub mod Sources
