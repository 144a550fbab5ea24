-- ===== src/Desktop.antt =====
-- apps/lluma-desktop/src-tauri/src: the wallet and the account of the desktop application.
pub mod Wallet
pub mod Account
