-- ===== src/Aggregator.antt =====
-- src/aggregator.rs: a round of batches, from the first batch to the signed transfer block.
pub mod Proofs
pub mod Finalise
pub mod Rounds
pub mod Invariant
pub mod Entries
use stateless_payments.Common.{
  ℕ, Bytes, Bool, true, false, not, Option, none, some, List, [], ◌∷◌, map, is_empty, is_some,
}
use stateless_payments.Common.Outcome.{ok, ok_or, fail_if, ◌>>=◌, ◌>>◌, on_ok}
use stateless_payments.External.Bls.{Bls}
use stateless_payments.External.Sha2.{Sha256}
use stateless_payments.External.RsMerkle.{RsMerkle}
use stateless_payments.External.IndexMap.{IndexMap}
use stateless_payments.Types.PublicKey.{BlsPublicKeyWrapper, wrap, wrapper_Eq}
use stateless_payments.Types.Transaction.{
  TransactionBatch, TransactionProof, SerdeTransaction, sha256_algorithm_hash, batch_tx_hash,
}
use stateless_payments.Types.Errors.{
  CrateResult, anyhow, from_bls, invalid_state, no_transactions_to_collect,
  transaction_already_exists, no_transactions, not_found_generating_proof,
  not_found_adding_signature, no_signatures,
}
use stateless_payments.Types.TransferBlock.{TransferBlock, block_eq, new_signature}

module _ ⦃b : Bls⦄ where
  pub record TxMetadata : Type 0 where
    pub index : ℕ
    pub batch : TransactionBatch
    pub signature : Option b.Signature

  -- `metadata.signature = Some(*signature)`
  abbrev pub set_signature : b.Signature → TxMetadata → TxMetadata
  set_signature signature metadata = record metadata { signature = some signature }

  -- `opened` is `AggregatorState::Open`.
  pub data AggregatorState : Type 0 where
    opened : AggregatorState
    collect_signatures : AggregatorState
    finalised : TransferBlock → AggregatorState

  -- The derived `PartialEq`.
  abbrev pub state_eq : AggregatorState → AggregatorState → Bool
  state_eq opened opened = true
  state_eq collect_signatures collect_signatures = true
  state_eq (finalised block) (finalised other) = block_eq block other
  state_eq _ _ = false

  -- The pairs that the loop of `finalise` pushes.
  unfoldable pub signatures_and_public_keys : List TxMetadata → List (b.PublicKey × b.Signature)
  signatures_and_public_keys [] = []
  signatures_and_public_keys (tx_metadata ∷ rest) = elim tx_metadata.signature [
    | none ↦ signatures_and_public_keys rest
    | some signature ↦ (tx_metadata.batch.from, signature) ∷ signatures_and_public_keys rest
  ]

module _ ⦃b : Bls⦄ ⦃s : Sha256⦄ ⦃j : SerdeTransaction⦄ ⦃m : RsMerkle sha256_algorithm_hash⦄
    ⦃im : IndexMap BlsPublicKeyWrapper TxMetadata⦄ where
  pub record Aggregator : Type 0 where
    pub tx_hash_to_metadata : im.Map
    pub merkle_tree : m.MerkleTree
    pub state : AggregatorState
    pub salt : Bytes

  -- `Aggregator::new`, given the salt that it draws.
  unfoldable pub new : Bytes → Aggregator
  new salt = record {
    tx_hash_to_metadata = im.new;
    merkle_tree = m.new;
    state = opened;
    salt = salt;
  }

  unfoldable pub check_aggregator_state : Aggregator → AggregatorState → CrateResult (Unit {0})
  check_aggregator_state self expected_state =
      fail_if (not (state_eq self.state expected_state)) (anyhow invalid_state)

  -- The checks of `start_collecting_signatures`.
  unfoldable pub can_start : Aggregator → CrateResult (Unit {0})
  unfolding check_aggregator_state
  can_start self = do
    fail_if (is_empty (im.entries self.tx_hash_to_metadata)) (anyhow no_transactions_to_collect)
    check_aggregator_state self opened

  unfoldable pub start_collecting_signatures : Aggregator → CrateResult (Unit {0}) × Aggregator
  unfolding can_start
  start_collecting_signatures self =
      on_ok (can_start self) self (λ _. (ok tt, record self { state = collect_signatures }))

  -- The checks of `add_batch`.
  unfoldable pub can_add_batch : TransactionBatch → Aggregator → CrateResult (Unit {0})
  unfolding check_aggregator_state
  can_add_batch batch self = do
    check_aggregator_state self opened
    fail_if (is_some (im.get (wrap batch.from) self.tx_hash_to_metadata))
        (anyhow transaction_already_exists)

  -- The metadata that `add_batch` inserts.
  abbrev pub new_metadata : TransactionBatch → Aggregator → TxMetadata
  new_metadata batch self = record {
    index = m.leaves_len self.merkle_tree;
    batch = batch;
    signature = none;
  }

  unfoldable pub add_batch : TransactionBatch → Aggregator → CrateResult (Unit {0}) × Aggregator
  unfolding can_add_batch
  add_batch batch self = on_ok (can_add_batch batch self) self λ _. (
    ok tt,
    record self {
      tx_hash_to_metadata =
          im.insert (wrap batch.from) (new_metadata batch self) self.tx_hash_to_metadata;
      merkle_tree = m.commit (m.insert (batch_tx_hash batch) self.merkle_tree);
    },
  )

  unfoldable pub root : Aggregator → CrateResult Bytes
  root self = ok_or (m.root self.merkle_tree) (anyhow no_transactions)

  unfoldable pub generate_proof_for_pubkey : Aggregator → b.PublicKey → CrateResult TransactionProof
  unfolding check_aggregator_state root
  generate_proof_for_pubkey self public_key = do
    check_aggregator_state self collect_signatures
    metadata ←
        ok_or (im.get (wrap public_key) self.tx_hash_to_metadata)
          (anyhow not_found_generating_proof)
    r ← root self
    ok (record {
      proof_hashes = m.proof_hashes self.merkle_tree (metadata.index ∷ []);
      root = r;
      batch = metadata.batch;
      index = metadata.index;
      total_leaves = m.leaves_len self.merkle_tree;
    })

  -- The checks of `add_signature`, which end in the sender's metadata.
  unfoldable pub can_add_signature : b.PublicKey → b.Signature → Aggregator → CrateResult TxMetadata
  unfolding check_aggregator_state root
  can_add_signature public_key signature self = do
    check_aggregator_state self collect_signatures
    r ← root self
    from_bls (b.verify signature public_key r)
    ok_or (im.get (wrap public_key) self.tx_hash_to_metadata) (anyhow not_found_adding_signature)

  unfoldable pub add_signature :
      b.PublicKey → b.Signature → Aggregator → CrateResult (Unit {0}) × Aggregator
  unfolding can_add_signature
  add_signature public_key signature self =
      on_ok (can_add_signature public_key signature self) self λ _. (
        ok tt,
        record self {
          tx_hash_to_metadata =
              im.modify (wrap public_key) (set_signature signature) self.tx_hash_to_metadata;
        },
      )

  -- The block that `finalise` makes, or its error.
  unfoldable pub transfer_block_of : Aggregator → CrateResult TransferBlock
  unfolding check_aggregator_state root signatures_and_public_keys new_signature
  transfer_block_of self = do
    check_aggregator_state self collect_signatures
    let signed = signatures_and_public_keys (map (λ kv. kv.1) (im.entries self.tx_hash_to_metadata))
    fail_if (is_empty signed) (anyhow no_signatures)
    signature ← new_signature signed
    merkle_root ← root self
    ok (record { signature = signature; merkle_root = merkle_root })

  unfoldable pub finalise : Aggregator → CrateResult TransferBlock × Aggregator
  unfolding transfer_block_of
  finalise self =
      on_ok (transfer_block_of self) self
        (λ transfer_block. (ok transfer_block, record self { state = finalised transfer_block }))
