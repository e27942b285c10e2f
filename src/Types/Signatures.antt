-- ===== src/Types/Signatures.antt =====
-- src/types/signatures.rs: the wrappers of signatures and secret keys, and how they are read.
use stateless_payments.Common.{Bytes, ◌≡◌, subst, Option}
use stateless_payments.Common.Outcome.{ok, ok_or, ◌>>=◌, >>=-eq-ok}
use stateless_payments.External.Bls.{Bls}
use stateless_payments.Types.Errors.{CrateResult, anyhow, invalid_json}
use stateless_payments.Types.Balance.Serde.{quoted}

module _ ⦃b : Bls⦄ where
  pub record BlsSignatureWrapper : Type 0 where
    pub signature : b.Signature

  pub record BlsAggregateSignatureWrapper : Type 0 where
    pub signature : b.AggregateSignature

  pub record BlsSecretKeyWrapper : Type 0 where
    pub secret_key : b.SecretKey

  -- The points of `blsful`, of which signatures are made, and `serde_json` at the data of this file.
  pub record SignatureCodec : Type 1 where
    pub G1Projective : Type 0
    -- The constructors `MessageAugmentation`.
    pub augmented : G1Projective → b.Signature
    pub augmented_aggregate : G1Projective → b.AggregateSignature
    -- The field `MessageAugmentation` of an object that has it and whose value is a text.
    pub augmentation_from_json : Bytes → Option Bytes
    pub point_from_json : Bytes → Option G1Projective
    pub string_from_json : Bytes → Option Bytes
    pub secret_key_from_json : Bytes → Option b.SecretKey
    pub augmented-IsAugmented : (point : G1Projective) → b.IsAugmented (augmented point)
    pub augmented_aggregate-IsAugmented :
        (point : G1Projective) → b.IsAugmentedAggregate (augmented_aggregate point)

  module _ ⦃c : SignatureCodec⦄ where
    -- `MessageAugmentationWrapper::deserialize`, and the point in it.
    abbrev read_point : Bytes → CrateResult c.G1Projective
    read_point json = do
      t ← ok_or (c.augmentation_from_json json) (anyhow invalid_json)
      ok_or (c.point_from_json (quoted t)) (anyhow invalid_json)

    -- `Deserialize for BlsSignatureWrapper`
    unfoldable pub deserialize_signature : Bytes → CrateResult BlsSignatureWrapper
    deserialize_signature json = do
      key ← read_point json
      ok (record { signature = c.augmented key })

    -- `Deserialize for BlsAggregateSignatureWrapper`
    unfoldable pub deserialize_aggregate : Bytes → CrateResult BlsAggregateSignatureWrapper
    deserialize_aggregate json = do
      key ← read_point json
      ok (record { signature = c.augmented_aggregate key })

    -- `Deserialize for BlsSecretKeyWrapper`
    unfoldable pub deserialize_secret_key : Bytes → CrateResult BlsSecretKeyWrapper
    deserialize_secret_key json = do
      t ← ok_or (c.string_from_json json) (anyhow invalid_json)
      key ← ok_or (c.secret_key_from_json (quoted t)) (anyhow invalid_json)
      ok (record { secret_key = key })

    -- Whatever is read as a signature or as an aggregate is of that scheme.
    deserialize_signature-IsAugmented :
        (json : Bytes) {wrapper : BlsSignatureWrapper}
        → deserialize_signature json ≡ ok wrapper
        → b.IsAugmented wrapper.signature
    unfolding deserialize_signature
    deserialize_signature-IsAugmented json {wrapper} h =
        let (p, _, made) = >>=-eq-ok (read_point json) _ h in
        let same : c.augmented p ≡ wrapper.signature = cc in
        subst (λ x. b.IsAugmented x) same (c.augmented-IsAugmented p)

    deserialize_aggregate-IsAugmented :
        (json : Bytes) {wrapper : BlsAggregateSignatureWrapper}
        → deserialize_aggregate json ≡ ok wrapper
        → b.IsAugmentedAggregate wrapper.signature
    unfolding deserialize_aggregate
    deserialize_aggregate-IsAugmented json {wrapper} h =
        let (p, _, made) = >>=-eq-ok (read_point json) _ h in
        let same : c.augmented_aggregate p ≡ wrapper.signature = cc in
        subst (λ x. b.IsAugmentedAggregate x) same (c.augmented_aggregate-IsAugmented p)
