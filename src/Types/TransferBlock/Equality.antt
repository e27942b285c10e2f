-- ===== src/Types/TransferBlock/Equality.antt =====
-- The derived equality of transfer blocks decides identity (src/types/common.rs).
use stateless_payments.Common.{true, ◌≡◌, ◌↔◌, Eq, list_eq_iff, bytes_eq_iff, arith}
use stateless_payments.External.Bls.{Bls}
use stateless_payments.Types.PublicKey.{eq_iff, wrapper_Eq}
use stateless_payments.Types.TransferBlock.{
  TransferBlockSignature, aggregated, individual, TransferBlock, transfer_block_signature_eq,
  block_eq,
}

module _ ⦃b : Bls⦄ where
  signature_eq_iff :
      (x y : TransferBlockSignature) → (transfer_block_signature_eq x y ≡ true) ↔ (x ≡ y)
  signature_eq_iff (aggregated sig pks) (aggregated sig' pks') =
      ground (arith, b.aggregate_eq.beq_iff sig sig', list_eq_iff pks pks')
  signature_eq_iff (aggregated sig pks) (individual sig' pk) = ground arith
  signature_eq_iff (individual sig pk) (aggregated sig' pks) = ground arith
  signature_eq_iff (individual sig pk) (individual sig' pk') =
      ground (arith, b.signature_eq.beq_iff sig sig', eq_iff pk pk')

  pub block_eq_iff : (x y : TransferBlock) → (block_eq x y ≡ true) ↔ (x ≡ y)
  block_eq_iff x y =
      ground
        (arith, signature_eq_iff x.signature y.signature, bytes_eq_iff x.merkle_root y.merkle_root)

  instance abbrev pub block_Eq : Eq TransferBlock
  block_Eq = record { beq = block_eq; beq_iff = block_eq_iff }
