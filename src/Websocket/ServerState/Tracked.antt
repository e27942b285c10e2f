-- ===== src/Websocket/ServerState/Tracked.antt =====
-- The server's table of batches against the aggregator's map, step by step
-- (src/websocket/server/server_state.rs).
use stateless_payments.Common.{
  Bytes, Bool, true, false, none, some, [], is_some, is_some, ◌≡◌, refl, arith,
}
use stateless_payments.Common.Assoc.{HashMap, lookup, insert, lookup-insert, lookup-modify}
use stateless_payments.Common.Outcome.{ok, on_ok_elim, IsAtomic, on_ok-IsAtomic}
use stateless_payments.External.Bls.{Bls}
use stateless_payments.External.Sha2.{Sha256}
use stateless_payments.External.RsMerkle.{RsMerkle}
use stateless_payments.External.IndexMap.{IndexMap}
use stateless_payments.Types.PublicKey.{BlsPublicKeyWrapper, wrap, wrapper_Eq}
use stateless_payments.Types.Transaction.{TransactionBatch, SerdeTransaction, sha256_algorithm_hash}
use stateless_payments.Aggregator.{
  Aggregator, TxMetadata, opened, collect_signatures, new_metadata, set_signature, can_start,
  can_add_batch, can_add_signature, transfer_block_of,
}
use stateless_payments.Aggregator
use stateless_payments.Types.PublicKey.{eq_iff}
use stateless_payments.Aggregator.Invariant.{entries_of, can_add_signature_inv}

module _ ⦃b : Bls⦄ ⦃s : Sha256⦄ ⦃j : SerdeTransaction⦄ ⦃m : RsMerkle sha256_algorithm_hash⦄
    ⦃im : IndexMap BlsPublicKeyWrapper TxMetadata⦄ where
  -- The table has exactly the senders of the round, and whose signature came in.
  abbrev pub IsTracked : HashMap BlsPublicKeyWrapper Bool → Aggregator → Type 0
  IsTracked table a =
      (k : BlsPublicKeyWrapper)
      → lookup k table
        ≡ elim (lookup k (entries_of a)) [ none ↦ none | some md ↦ some (is_some md.signature) ]

  -- After a batch is taken, its sender is in the table without a signature.
  pub batch-IsTracked :
      (batch : TransactionBatch) (table : HashMap BlsPublicKeyWrapper Bool) (a : Aggregator)
      → IsTracked table a
      → (Aggregator.add_batch batch a).0 ≡ ok tt
      → IsTracked (insert (wrap batch.from) false table) (Aggregator.add_batch batch a).1
  unfolding Aggregator.add_batch
  batch-IsTracked batch table a t =
      on_ok_elim (λ y. y.0 ≡ ok tt → IsTracked (insert (wrap batch.from) false table) y.1)
        (can_add_batch batch a) a _ (λ e h. absurd (cc)) (λ h. absurd (cc))
        λ _ h _ k. ground (
          arith,
          im.entries-insert (wrap batch.from) (new_metadata batch a) a.tx_hash_to_metadata,
          lookup-insert (wrap batch.from) k (new_metadata batch a) (entries_of a),
          lookup-insert (wrap batch.from) k false table,
          t k,
        )

  -- After a signature is taken, its signer is in the table with one.
  pub signature-IsTracked :
      (pk : b.PublicKey) (signature : b.Signature) (table : HashMap BlsPublicKeyWrapper Bool)
      (a : Aggregator)
      → IsTracked table a
      → (Aggregator.add_signature pk signature a).0 ≡ ok tt
      → IsTracked (insert (wrap pk) true table) (Aggregator.add_signature pk signature a).1
  unfolding Aggregator.add_signature
  signature-IsTracked pk signature table a t =
      on_ok_elim (λ y. y.0 ≡ ok tt → IsTracked (insert (wrap pk) true table) y.1)
        (can_add_signature pk signature a) a _ (λ e h. absurd (cc)) (λ h. absurd (cc))
        λ md h _ k.
          let (_, _, _, _, found) = can_add_signature_inv pk signature a h in
          ground (
            arith,
            im.entries-modify (wrap pk) (set_signature signature) a.tx_hash_to_metadata,
            lookup-modify (wrap pk) k (set_signature signature) (entries_of a),
            lookup-insert (wrap pk) k true table,
            eq_iff k (wrap pk),
            found,
            t k,
          )

  pub new-IsTracked : (salt : Bytes) → IsTracked [] (Aggregator.new salt)
  unfolding Aggregator.new
  new-IsTracked salt k = rw (im.entries-new) refl

  pub add_batch-IsAtomic :
      (batch : TransactionBatch) (a : Aggregator) → IsAtomic a (Aggregator.add_batch batch a)
  unfolding Aggregator.add_batch
  add_batch-IsAtomic batch a = on_ok-IsAtomic (can_add_batch batch a) a _ _

  pub add_signature-IsAtomic :
      (pk : b.PublicKey) (signature : b.Signature) (a : Aggregator)
      → IsAtomic a (Aggregator.add_signature pk signature a)
  unfolding Aggregator.add_signature
  add_signature-IsAtomic pk signature a = on_ok-IsAtomic (can_add_signature pk signature a) a _ _

  pub start-map :
      (a : Aggregator)
      → (Aggregator.start_collecting_signatures a).1.tx_hash_to_metadata ≡ a.tx_hash_to_metadata
  unfolding Aggregator.start_collecting_signatures
  start-map a =
      on_ok_elim (λ y. y.1.tx_hash_to_metadata ≡ a.tx_hash_to_metadata) (can_start a) a _
        (λ e. refl) refl (λ _ h. refl)

  pub finalise-map :
      (a : Aggregator) → (Aggregator.finalise a).1.tx_hash_to_metadata ≡ a.tx_hash_to_metadata
  unfolding Aggregator.finalise
  finalise-map a =
      on_ok_elim (λ y. y.1.tx_hash_to_metadata ≡ a.tx_hash_to_metadata) (transfer_block_of a) a _
        (λ e. refl) refl (λ _ h. refl)
