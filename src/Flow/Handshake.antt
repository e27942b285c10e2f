-- ===== src/Flow/Handshake.antt =====
-- A wallet and the aggregator: the proof that is handed out is signed, and the signature is taken
-- (src/aggregator.rs and src/wallet/wallet.rs).
use stateless_payments.Common.{Bytes, ◌≡◌, sym, ap, subst, ◌∙◌, true, some, arith}
use stateless_payments.Common.Assoc.{lookup}
use stateless_payments.Common.Outcome.{ok}
use stateless_payments.External.Bls.{Bls}
use stateless_payments.External.Sha2.{Sha256}
use stateless_payments.External.RsMerkle.{RsMerkle}
use stateless_payments.External.IndexMap.{IndexMap}
use stateless_payments.Types.PublicKey.{BlsPublicKeyWrapper, wrap, wrapper_Eq}
use stateless_payments.Types.Transaction.{
  TransactionProof, SerdeTransaction, sha256_algorithm_hash, batch_tx_hash,
}
use stateless_payments.Aggregator.{
  TxMetadata, collect_signatures, Aggregator, root, generate_proof_for_pubkey, can_add_signature,
  add_signature, set_signature,
}
use stateless_payments.Aggregator.Invariant.{entries_of}
use stateless_payments.Aggregator.Invariant
use stateless_payments.Aggregator.Proofs.{generate_proof_verifies}
use stateless_payments.Wallet.Persist.{Wallet}
use stateless_payments.Wallet.Wallet.{sign_checked}
use stateless_payments.Wallet.Wallet.Spending.{IsValid}
use stateless_payments.Wallet.Wallet.Signing.{sign_checked_total}

module _ ⦃b : Bls⦄ ⦃s : Sha256⦄ ⦃j : SerdeTransaction⦄ ⦃m : RsMerkle sha256_algorithm_hash⦄
    ⦃im : IndexMap BlsPublicKeyWrapper TxMetadata⦄ where
  -- A valid wallet whose pending batch is in a valid round that collects signatures, and whose key
  -- can sign, gets a proof, signs it, and the aggregator takes the signature.
  pub handshake :
      (a : Aggregator) (w : Wallet) (md : TxMetadata)
      → Invariant.IsValid a
      → IsValid w
      → a.state ≡ collect_signatures
      → w.batch_is_pending ≡ true
      → lookup (wrap w.public_key) (entries_of a) ≡ some md
      → md.batch ≡ w.transaction_batch
      → ((message : Bytes)
          → (signature : b.Signature) × (b.sign w.private_key message ≡ ok signature))
      → (p : TransactionProof) × (signature : b.Signature) × (generate_proof_for_pubkey a
            w.public_key
          ≡ ok p)
        × (sign_checked p w ≡ ok signature)
        × (add_signature w.public_key signature a ≡ (
          ok tt,
          record a {
            tx_hash_to_metadata =
                im.modify (wrap w.public_key) (set_signature signature) a.tx_hash_to_metadata;
          },
        ))
  unfolding add_signature can_add_signature root
  handshake a w md v u collecting pending found same can_sign =
      let (p, made, included, batch, owner, has_root) =
        generate_proof_verifies a w.public_key md v collecting found in
      let (signature, signs) = can_sign p.root in
      let verified : b.verify signature w.public_key p.root ≡ ok tt =
        subst (λ k. b.verify signature k p.root ≡ ok tt) (sym u.own_key)
          (b.verify-sign w.private_key p.root signature signs) in
      (
        p,
        signature,
        made,
        sign_checked_total p w signature (record {
          pending = pending;
          same_hash = ap batch_tx_hash (sym same ∙ sym batch);
          own_batch = ap (λ x. x.from) (batch ∙ same) ∙ u.owner;
          included = included;
          signs = signs;
        }),
        ground (arith, im.get_lem (wrap w.public_key) a.tx_hash_to_metadata),
      )
