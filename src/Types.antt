-- ===== src/Types.antt =====
-- src/types and src/errors.rs.
pub mod PublicKey
pub mod Transaction
pub mod Errors
pub mod TransferBlock
pub mod Balance
pub mod Signatures
