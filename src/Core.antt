-- ===== src/Core.antt =====
-- crates/lluma-core: the types of the wire and the checks on incoming requests.
pub mod Wire
pub mod Proto
