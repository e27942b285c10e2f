-- ===== src/Aggregator/Proofs.antt =====
-- The inclusion proofs that an aggregator hands out (generate_proof_for_pubkey in src/aggregator.rs).
use stateless_payments.Common.{
  ℕ, ◌≡◌, ◌≢◌, refl, sym, true, some, List, [], ◌∷◌, get_elem?, subst, arith,
}
use stateless_payments.Common.Assoc.{lookup}
use stateless_payments.Common.Outcome.{ok}
use stateless_payments.External.Bls.{Bls}
use stateless_payments.External.Sha2.{Sha256}
use stateless_payments.External.RsMerkle.{RsMerkle}
use stateless_payments.External.IndexMap.{IndexMap}
use stateless_payments.Types.PublicKey.{BlsPublicKeyWrapper, wrap, wrapper_Eq}
use stateless_payments.Types.Transaction.{
  TransactionProof, SerdeTransaction, sha256_algorithm_hash, batch_tx_hash, verify_proof,
}
use stateless_payments.Aggregator.{
  TxMetadata, collect_signatures, Aggregator, root, generate_proof_for_pubkey,
}
use stateless_payments.Aggregator.Entries.{Indexed-lookup}
use stateless_payments.Aggregator.Invariant.{IsValid, entries_of}

not-empty {ℓ} : {A : Type ℓ} (xs : List A) (i : ℕ) {a : A} → get_elem? xs i ≡ some a → xs ≢ []
not-empty [] i e = absurd (cc)
not-empty (x ∷ xs) i e = λ h. cc

module _ ⦃b : Bls⦄ ⦃s : Sha256⦄ ⦃j : SerdeTransaction⦄ ⦃m : RsMerkle sha256_algorithm_hash⦄
    ⦃im : IndexMap BlsPublicKeyWrapper TxMetadata⦄ where
  -- While a valid aggregator collects signatures, everybody with a batch in the round gets a proof
  -- of that batch under the aggregator's root, and the proof verifies.
  pub generate_proof_verifies :
      (a : Aggregator) (pk : b.PublicKey) (md : TxMetadata)
      → IsValid a
      → a.state ≡ collect_signatures
      → lookup (wrap pk) (entries_of a) ≡ some md
      → (p : TransactionProof) × (generate_proof_for_pubkey a pk ≡ ok p)
        × (verify_proof p ≡ true)
        × (p.batch ≡ md.batch)
        × (wrap p.batch.from ≡ wrap pk)
        × (root a ≡ ok p.root)
  unfolding generate_proof_for_pubkey verify_proof root
  generate_proof_verifies a pk md v collecting found =
      let (i, number, leaf, owner) = Indexed-lookup 0 (wrap pk) (entries_of a) v.indexed found in
      let placed : get_elem? (m.leaves a.merkle_tree) i ≡ some (batch_tx_hash md.batch) =
        rw v.leaves leaf in
      let (r, has_root) = m.root_some a.merkle_tree (not-empty _ i placed) in
      let verified =
        m.verify-proof_hashes a.merkle_tree i (batch_tx_hash md.batch) r placed has_root in
      let at_index : md.index ≡ i = omega arith in
      (
        record {
          proof_hashes = m.proof_hashes a.merkle_tree (md.index ∷ []);
          root = r;
          batch = md.batch;
          index = md.index;
          total_leaves = m.leaves_len a.merkle_tree;
        },
        ground (arith, im.get_lem (wrap pk) a.tx_hash_to_metadata),
        subst
            (λ i.
              m.verify (m.proof_hashes a.merkle_tree (i ∷ [])) r (i ∷ [])
                (batch_tx_hash md.batch ∷ []) (m.leaves_len a.merkle_tree)
              ≡ true)
            (sym at_index) verified,
        refl,
        owner,
        ground arith,
      )
