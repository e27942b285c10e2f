-- ===== src/Aggregator/Rounds.antt =====
-- The life of an aggregator (src/aggregator.rs) as a relation of steps: every call, failed or not.
use stateless_payments.Common.{ℕ, ◌≤◌, Bytes, ◌≡◌, refl, ◌∙◌, some, arith}
use stateless_payments.Common.Assoc.{lookup-insert_self}
use stateless_payments.Common.Outcome.{ok, err, on_ok_elim, on_ok-eq-ok}
use stateless_payments.External.Bls.{Bls}
use stateless_payments.External.Sha2.{Sha256}
use stateless_payments.External.RsMerkle.{RsMerkle}
use stateless_payments.External.IndexMap.{IndexMap}
use stateless_payments.Types.PublicKey.{BlsPublicKeyWrapper, wrap, wrapper_Eq}
use stateless_payments.Types.Transaction.{TransactionBatch, SerdeTransaction, sha256_algorithm_hash}
use stateless_payments.Types.Errors.{anyhow, transaction_already_exists}
use stateless_payments.Aggregator.{
  TxMetadata, AggregatorState, opened, collect_signatures, finalised, Aggregator, new, new_metadata,
  can_start, can_add_batch, can_add_signature, transfer_block_of, start_collecting_signatures,
  add_batch, add_signature, finalise,
}
use stateless_payments.Aggregator.Invariant.{
  IsValid, entries_of, new-IsValid, start_collecting_signatures-IsValid, add_batch-IsValid,
  add_signature-IsValid, finalise-IsValid, can_start-opened, can_add_batch_inv,
}

module _ ⦃b : Bls⦄ where
  abbrev pub rank : AggregatorState → ℕ
  rank opened = 0
  rank collect_signatures = 1
  rank (finalised block) = 2

module _ ⦃b : Bls⦄ ⦃s : Sha256⦄ ⦃j : SerdeTransaction⦄ ⦃m : RsMerkle sha256_algorithm_hash⦄
    ⦃im : IndexMap BlsPublicKeyWrapper TxMetadata⦄ where
  pub data Step (a : Aggregator) : Aggregator → Type 0 where
    starts : Step a (start_collecting_signatures a).1
    batches : (batch : TransactionBatch) → Step a (add_batch batch a).1
    signs : (pk : b.PublicKey) (signature : b.Signature) → Step a (add_signature pk signature a).1
    finalises : Step a (finalise a).1

  pub data Reach (a : Aggregator) : Aggregator → Type 0 where
    here : Reach a a
    next : {u w : Aggregator} → Reach a u → Step u w → Reach a w

  Step-IsValid : {a u : Aggregator} → Step a u → IsValid a → IsValid u
  Step-IsValid {a} starts v = start_collecting_signatures-IsValid a v
  Step-IsValid {a} (batches batch) v = add_batch-IsValid batch a v
  Step-IsValid {a} (signs pk signature) v = add_signature-IsValid pk signature a v
  Step-IsValid {a} finalises v = finalise-IsValid a v

  Reach-IsValid : {a u : Aggregator} → Reach a u → IsValid a → IsValid u
  Reach-IsValid here v = v
  Reach-IsValid (next r st) v = Step-IsValid st (Reach-IsValid r v)

  -- After any calls on a new aggregator the map, the tree and the signatures agree.
  pub reachable-IsValid : (salt : Bytes) {a : Aggregator} → Reach (new salt) a → IsValid a
  reachable-IsValid salt r = Reach-IsValid r (new-IsValid salt)

  Step-rank : {a u : Aggregator} → Step a u → rank a.state ≤ rank u.state
  unfolding start_collecting_signatures add_batch add_signature finalise
  Step-rank {a} starts =
      on_ok_elim (λ x. rank a.state ≤ rank x.1.state) (can_start a) a _ (λ e. omega arith)
        (omega arith) (λ _ h. ground (arith, can_start-opened a h))
  Step-rank {a} (batches batch) =
      on_ok_elim (λ x. rank a.state ≤ rank x.1.state) (can_add_batch batch a) a _ (λ e. omega arith)
        (omega arith) (λ _ h. omega arith)
  Step-rank {a} (signs pk signature) =
      on_ok_elim (λ x. rank a.state ≤ rank x.1.state) (can_add_signature pk signature a) a _
        (λ e. omega arith) (omega arith) (λ _ h. omega arith)
  Step-rank {a} finalises =
      on_ok_elim (λ x. rank a.state ≤ rank x.1.state) (transfer_block_of a) a _ (λ e. omega arith)
        (omega arith) (λ block h. ground arith)

  -- The phases only go forward: open, then collecting signatures, then finalised.
  pub Reach-rank : {a u : Aggregator} → Reach a u → rank a.state ≤ rank u.state
  Reach-rank here = omega arith
  Reach-rank (next r st) = omega (arith, Reach-rank r, Step-rank st)

  Step-tree : {a u : Aggregator} → Step a u → 1 ≤ rank a.state → u.merkle_tree ≡ a.merkle_tree
  unfolding start_collecting_signatures add_batch add_signature finalise
  Step-tree {a} starts h =
      on_ok_elim (λ x. x.1.merkle_tree ≡ a.merkle_tree) (can_start a) a _ (λ e. refl) refl
        (λ _ k. refl)
  Step-tree {a} (batches batch) h =
      on_ok_elim (λ x. x.1.merkle_tree ≡ a.merkle_tree) (can_add_batch batch a) a _ (λ e. refl) refl
        (λ _ k. ground (arith, can_add_batch_inv batch a k))
  Step-tree {a} (signs pk signature) h =
      on_ok_elim (λ x. x.1.merkle_tree ≡ a.merkle_tree) (can_add_signature pk signature a) a _
        (λ e. refl) refl (λ _ k. refl)
  Step-tree {a} finalises h =
      on_ok_elim (λ x. x.1.merkle_tree ≡ a.merkle_tree) (transfer_block_of a) a _ (λ e. refl) refl
        (λ block k. refl)

  -- Once signatures are collected, and after any further calls, the tree, and so the root that is
  -- signed, stays.
  Reach-tree : {a u : Aggregator} → Reach a u → 1 ≤ rank a.state → u.merkle_tree ≡ a.merkle_tree
  Reach-tree here h = refl
  Reach-tree (next r st) h = Step-tree st (omega (arith, Reach-rank r)) ∙ Reach-tree r h

  -- Right after a sender's batch is taken, another batch of that sender is refused and changes
  -- nothing.
  add_batch_twice :
      (batch other : TransactionBatch) (a : Aggregator) {u : Aggregator}
      → add_batch batch a ≡ (ok tt, u)
      → wrap other.from ≡ wrap batch.from
      → add_batch other u ≡ (err (anyhow transaction_already_exists), u)
  unfolding add_batch can_add_batch
  add_batch_twice batch other a {u} h same =
      let (_, can, _, after) = on_ok-eq-ok (can_add_batch batch a) a _ _ h in
      let (o, _) = can_add_batch_inv batch a can in
      let present : im.get (wrap other.from) u.tx_hash_to_metadata ≡ some (new_metadata batch a) =
        im.get_lem (wrap other.from) u.tx_hash_to_metadata
        ∙ rw
            (
              after,
              same,
              im.entries-insert (wrap batch.from) (new_metadata batch a) a.tx_hash_to_metadata,
            )
            (lookup-insert_self (wrap batch.from) (new_metadata batch a) (entries_of a)) in
      ground arith
