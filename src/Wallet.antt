-- ===== src/Wallet.antt =====
-- src/wallet: the wallet of a user, and the balances that follow from a balance proof.
pub mod Utils
pub mod Persist
pub mod Wallet
