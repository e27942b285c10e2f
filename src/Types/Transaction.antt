-- ===== src/Types/Transaction.antt =====
-- src/types/transaction.rs: transactions, batches of them, and Merkle proofs of a batch.
use stateless_payments.Common.{ℕ, Bytes, Bool, List, [], ◌∷◌, ◌++◌}
use stateless_payments.External.Bls.{Bls}
use stateless_payments.External.Sha2.{Sha256}
use stateless_payments.External.RsMerkle.{RsMerkle}

module _ ⦃b : Bls⦄ where
  pub record SimpleTransaction : Type 0 where
    pub to : b.PublicKey
    pub from : b.PublicKey
    pub amount : ℕ
    pub salt : Bytes

  pub record TransactionBatch : Type 0 where
    pub from : b.PublicKey
    pub transactions : List SimpleTransaction

  -- `TransactionBatch::new`
  abbrev pub new_batch : b.PublicKey → TransactionBatch
  new_batch from = record { from = from; transactions = [] }

  pub record TransactionProof : Type 0 where
    pub proof_hashes : List Bytes
    pub root : Bytes
    pub batch : TransactionBatch
    pub index : ℕ
    pub total_leaves : ℕ

  -- `serde_json::to_vec` at a transaction.
  pub record SerdeTransaction : Type 0 where
    pub to_vec : SimpleTransaction → Bytes

-- `Sha256Algorithm::hash` of src/aggregator.rs.
abbrev pub sha256_algorithm_hash : ⦃s : Sha256⦄ → Bytes → Bytes
sha256_algorithm_hash ⦃s⦄ data' = s.digest data'

module _ ⦃b : Bls⦄ ⦃s : Sha256⦄ ⦃j : SerdeTransaction⦄ where
  -- `Into<U8_32>`
  unfoldable pub transaction_into_hash : SimpleTransaction → Bytes
  transaction_into_hash tx = s.digest (j.to_vec tx)

  -- `SimpleTransaction::tx_hash`
  unfoldable pub transaction_tx_hash : SimpleTransaction → Bytes
  unfolding transaction_into_hash
  transaction_tx_hash tx = s.digest (transaction_into_hash tx ++ tx.salt)

  -- What the loop of `TransactionBatch::tx_hash` feeds to the hasher.
  unfoldable pub fed_hashes : List SimpleTransaction → Bytes
  fed_hashes [] = []
  fed_hashes (tx ∷ txs) = transaction_tx_hash tx ++ fed_hashes txs

  -- `TransactionBatch::tx_hash`
  unfoldable pub batch_tx_hash : TransactionBatch → Bytes
  unfolding fed_hashes
  batch_tx_hash batch = s.digest (fed_hashes batch.transactions)

  module _ ⦃m : RsMerkle sha256_algorithm_hash⦄ where
    -- `TransactionProof::verify`
    unfoldable pub verify_proof : TransactionProof → Bool
    verify_proof p =
        m.verify p.proof_hashes p.root (p.index ∷ []) (batch_tx_hash p.batch ∷ []) p.total_leaves
