-- ===== src/Crypto.antt =====
-- crates/lluma-crypto: the primitives it builds on, signatures with domain separation, and proof of
-- work.
pub mod Primitives
pub mod Account
pub mod Domains
pub mod Tokens
pub mod Pow
pub mod Hpke
pub mod E2e
pub mod Ohttp
pub mod Vault
pub mod Keystore
