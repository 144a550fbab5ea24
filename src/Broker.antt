-- ===== src/Broker.antt =====
-- crates/lluma-broker: the durable accounting, the host registry, the receipts and the redeem path.
pub mod Config
pub mod Db
pub mod Store
pub mod Ledger
pub mod Spent
pub mod Counters
pub mod Redeem
pub mod Receipts
pub mod Trial
pub mod Address
pub mod Registry
pub mod Snapshot
pub mod Tunnel
pub mod Handshake
pub mod Exec
pub mod Service
pub mod Run
