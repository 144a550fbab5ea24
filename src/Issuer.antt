-- ===== src/Issuer.antt =====
-- crates/lluma-issuer: blind issuance against credits, and redemption.
pub mod Error
pub mod Ledger
pub mod SpentSet
pub mod Idem
pub mod Service
pub mod Client
