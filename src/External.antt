-- ===== src/External.antt =====
-- The third-party crates that the program calls, as interfaces: their operations, and what the
-- program relies on of them.
pub mod Bls
pub mod Sha2
pub mod RsMerkle
pub mod IndexMap
pub mod Tungstenite
