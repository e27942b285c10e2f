-- ===== src/Types/Balance.antt =====
-- src/types/balance.rs: the keys of a balance proof, and their text in JSON.
pub mod Serde
pub mod RoundTrip
use stateless_payments.Common.{Bytes, Bool, true, ◌&&◌, ◌≡◌, ◌↔◌, Eq, bytes_eq, bytes_eq_iff, arith}
use stateless_payments.Common.Assoc.{HashMap}
use stateless_payments.External.Bls.{Bls}
use stateless_payments.Types.PublicKey.{BlsPublicKeyWrapper, eq, eq_iff}
use stateless_payments.Types.Transaction.{TransactionProof}

module _ ⦃b : Bls⦄ where
  pub record BalanceProofKey : Type 0 where
    pub root : Bytes
    pub public_key : BlsPublicKeyWrapper

  -- The derived `PartialEq`.
  abbrev pub key_eq : BalanceProofKey → BalanceProofKey → Bool
  key_eq x y = bytes_eq x.root y.root && eq x.public_key y.public_key

  pub key_eq_iff : (x y : BalanceProofKey) → (key_eq x y ≡ true) ↔ (x ≡ y)
  key_eq_iff x y = ground (arith, bytes_eq_iff x.root y.root, eq_iff x.public_key y.public_key)

  instance abbrev pub key_Eq : Eq BalanceProofKey
  key_Eq = record { beq = key_eq; beq_iff = key_eq_iff }

  abbrev pub BalanceProof : Type 0
  BalanceProof = HashMap BalanceProofKey TransactionProof
