-- ===== src/Types/TransferBlock.antt =====
-- src/types/common.rs: the signature over a Merkle root, by one sender or by several.
pub mod Signers
pub mod Equality
use stateless_payments.Common.{
  Bytes, Bool, true, false, ◌&&◌, List, [], ◌∷◌, map, any, ◌==◌, ap, list_eq, bytes_eq, false, ◌&&◌,
}
use stateless_payments.Common.Outcome.{ok, ◌>>=◌}
use stateless_payments.External.Bls.{Bls}
use stateless_payments.Types.PublicKey.{BlsPublicKeyWrapper, wrap, unwrap, wrapper_Eq}
use stateless_payments.Types.Errors.{CrateResult, from_bls}

module _ ⦃b : Bls⦄ where
  pub data TransferBlockSignature : Type 0 where
    aggregated : b.AggregateSignature → List BlsPublicKeyWrapper → TransferBlockSignature
    individual : b.Signature → BlsPublicKeyWrapper → TransferBlockSignature

  -- The `else` branch of `TransferBlockSignature::new`.
  unfoldable pub new_aggregated :
      List (b.PublicKey × b.Signature) → CrateResult TransferBlockSignature
  new_aggregated values = do
    aggregate_signature ← from_bls (b.from_signatures (map (λ v. v.1) values))
    ok (aggregated aggregate_signature (map (λ v. wrap v.0) values))

  -- `TransferBlockSignature::new`
  unfoldable pub new_signature :
      List (b.PublicKey × b.Signature) → CrateResult TransferBlockSignature
  unfolding new_aggregated
  new_signature [] = new_aggregated []
  new_signature ((public_key, signature) ∷ []) = ok (individual signature (wrap public_key))
  new_signature (v ∷ w ∷ values) = new_aggregated (v ∷ w ∷ values)

  -- The signature is of the scheme that the wrappers of signatures.rs read back.
  abbrev pub IsAugmented : TransferBlockSignature → Type 0
  IsAugmented (aggregated sig public_keys) = b.IsAugmentedAggregate sig
  IsAugmented (individual sig public_key) = b.IsAugmented sig

  pub record TransferBlock : Type 0 where
    pub signature : TransferBlockSignature
    pub merkle_root : Bytes

  -- The derived `PartialEq` of `TransferBlockSignature` and `TransferBlock`.
  abbrev pub transfer_block_signature_eq : TransferBlockSignature → TransferBlockSignature → Bool
  transfer_block_signature_eq (aggregated sig pks) (aggregated sig' pks') =
      b.aggregate_eq.beq sig sig' && list_eq pks pks'
  transfer_block_signature_eq (aggregated sig pks) (individual sig' pk) = false
  transfer_block_signature_eq (individual sig pk) (aggregated sig' pks) = false
  transfer_block_signature_eq (individual sig pk) (individual sig' pk') =
      b.signature_eq.beq sig sig' && (pk == pk')

  abbrev pub block_eq : TransferBlock → TransferBlock → Bool
  block_eq x y =
      transfer_block_signature_eq x.signature y.signature && bytes_eq x.merkle_root y.merkle_root

  -- `TransferBlock::verify`
  unfoldable pub verify_signature : Bytes → TransferBlockSignature → CrateResult (Unit {0})
  verify_signature merkle_root (aggregated sig public_keys) =
      from_bls (b.aggregate_verify sig (map (λ pk. (unwrap pk, merkle_root)) public_keys))
  verify_signature merkle_root (individual sig public_key) =
      from_bls (b.verify sig (unwrap public_key) merkle_root)

  unfoldable pub verify_block : TransferBlock → CrateResult (Unit {0})
  unfolding verify_signature
  verify_block block = verify_signature block.merkle_root block.signature

  unfoldable pub signature_contains : TransferBlockSignature → b.PublicKey → Bool
  signature_contains (aggregated sig public_keys) public_key =
      any (λ pk. pk == wrap public_key) public_keys
  signature_contains (individual sig pk) public_key = pk == wrap public_key

  -- `TransferBlock::contains_pubkey`
  unfoldable pub contains_pubkey : TransferBlock → b.PublicKey → Bool
  unfolding signature_contains
  contains_pubkey block public_key = signature_contains block.signature public_key
