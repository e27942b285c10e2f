-- ===== src/Aggregator/Finalise.antt =====
-- The transfer block that ends a round (finalise in src/aggregator.rs).
use stateless_payments.Common.{
  Bytes, ◌≡◌, ◌≢◌, refl, sym, ◌∙◌, List, [], ◌∷◌, map, any, All, ◌==◌, arith,
}
use stateless_payments.Common.Outcome.{ok}
use stateless_payments.External.Bls.{Bls}
use stateless_payments.External.Sha2.{Sha256}
use stateless_payments.External.RsMerkle.{RsMerkle}
use stateless_payments.External.IndexMap.{IndexMap}
use stateless_payments.Types.PublicKey.{BlsPublicKeyWrapper, wrap, wrapper_Eq}
use stateless_payments.Types.Transaction.{SerdeTransaction, sha256_algorithm_hash}
use stateless_payments.Types.TransferBlock.{
  TransferBlockSignature, aggregated, individual, TransferBlock, new_aggregated, new_signature,
  verify_block, contains_pubkey,
}
use stateless_payments.Types.TransferBlock.Signers.{
  AllSigned, verify-new_signature, contains-new_signature,
}
use stateless_payments.Aggregator.{
  TxMetadata, collect_signatures, finalised, Aggregator, root, signatures_and_public_keys, finalise,
  transfer_block_of,
}
use stateless_payments.Aggregator.Entries.{Entries, hashes, signed_pairs}
use stateless_payments.Aggregator.Invariant.{IsValid, entries_of}

module _ ⦃b : Bls⦄ where
  -- The senders whose signatures came in, with their signatures.
  abbrev pub signers : Entries → List (b.PublicKey × b.Signature)
  signers es = signatures_and_public_keys (map (λ kv. kv.1) es)

  AllSigned-intro :
      (r : Bytes) (ps : List (b.PublicKey × b.Signature))
      → All (λ p. b.verify p.1 p.0 r ≡ ok tt) ps
      → All b.IsAugmented (map (λ p. p.1) ps)
      → AllSigned r ps
  AllSigned-intro r [] v g = tt
  AllSigned-intro r (p ∷ ps) v g = ((v.0, g.0), AllSigned-intro r ps v.1 g.1)

  new_aggregated_total :
      (p q : b.PublicKey × b.Signature) (ps : List (b.PublicKey × b.Signature))
      → All b.IsAugmented (map (λ x. x.1) (p ∷ q ∷ ps))
      → (s : TransferBlockSignature) × (new_aggregated (p ∷ q ∷ ps) ≡ ok s)
  unfolding new_aggregated
  new_aggregated_total p q ps g =
      let (a, e) = b.from_signatures_total (map (λ x. x.1) (p ∷ q ∷ ps)) (omega arith) g in
      (aggregated a (map (λ x. wrap x.0) (p ∷ q ∷ ps)), ground arith)

  new_signature_total :
      (ps : List (b.PublicKey × b.Signature))
      → ps ≢ []
      → All b.IsAugmented (map (λ x. x.1) ps)
      → (s : TransferBlockSignature) × (new_signature ps ≡ ok s)
  unfolding new_signature
  new_signature_total [] some_signed g = absurd (some_signed refl)
  new_signature_total (p ∷ []) some_signed g = (individual p.1 (wrap p.0), refl)
  new_signature_total (p ∷ q ∷ ps) some_signed g = new_aggregated_total p q ps g

  signers-hashes :
      ⦃s : Sha256⦄ ⦃j : SerdeTransaction⦄ (es : Entries) → signers es ≢ [] → hashes es ≢ []
  unfolding signatures_and_public_keys
  signers-hashes [] h e = h refl
  signers-hashes (x ∷ es) h e = cc

module _ ⦃b : Bls⦄ ⦃s : Sha256⦄ ⦃j : SerdeTransaction⦄ ⦃m : RsMerkle sha256_algorithm_hash⦄
    ⦃im : IndexMap BlsPublicKeyWrapper TxMetadata⦄ where
  -- If a valid aggregator collects signatures and has at least one, all of the wallets' scheme, the
  -- round ends in a block over the aggregator's root that verifies and that contains exactly the
  -- keys that signed.
  pub finalise-verifies :
      (a : Aggregator)
      → IsValid a
      → a.state ≡ collect_signatures
      → signers (entries_of a) ≢ []
      → All b.IsAugmented (map (λ x. x.1) (signers (entries_of a)))
      → (block : TransferBlock) × (finalise a ≡ (ok block, record a { state = finalised block }))
        × (verify_block block ≡ ok tt)
        × (root a ≡ ok block.merkle_root)
        × ((pk : b.PublicKey)
            → contains_pubkey block pk ≡ any (λ v. wrap v.0 == wrap pk) (signers (entries_of a)))
  unfolding finalise transfer_block_of root verify_block contains_pubkey
  finalise-verifies a v collecting some_signed g =
      let signed = signers (entries_of a) in
      let (r, has_root) =
        m.root_some a.merkle_tree
          (λ e. signers-hashes (entries_of a) some_signed (sym v.leaves ∙ e)) in
      let (sig, made) = new_signature_total signed some_signed g in
      let valid : AllSigned r signed =
        AllSigned-intro r signed
          (signed_pairs r (entries_of a) (rw (collecting, has_root) at (v.signed))) g in
      (
        record { signature = sig; merkle_root = r },
        ground arith,
        verify-new_signature r signed valid made,
        ground arith,
        λ pk. contains-new_signature pk signed made,
      )
