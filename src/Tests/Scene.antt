-- ===== src/Tests/Scene.antt =====
-- Two senders, a round of their batches, and the contract that its block is posted to.
use stateless_payments.Common.{ℕ, Bytes, true, false, none, List, [], ◌∷◌}
use stateless_payments.Types.PublicKey.{AccountTotals, wrap}
use stateless_payments.Types.Transaction.{TransactionBatch, TransactionProof}
use stateless_payments.Types.TransferBlock.{TransferBlock, aggregated}
use stateless_payments.Types.Balance.{BalanceProof}
use stateless_payments.Aggregator.{
  Aggregator, new, add_batch, start_collecting_signatures, add_signature,
}
use stateless_payments.Aggregator.Rounds.{Reach, here, next, starts, batches, signs}
use stateless_payments.Rollup.Memory.{MockRollupMemory}
use stateless_payments.Wallet.Persist.{Wallet, Files}
use stateless_payments.Tests.Crates.{
  toy_bls, toy_sha256, toy_merkle, toy_index_map, toy_serde_transaction, ToySignature,
}

abbrev pub alice : ℕ
alice = 1

abbrev pub bob : ℕ
bob = 2

abbrev pub carol : ℕ
carol = 3

abbrev pub alice_batch : TransactionBatch
alice_batch = record {
  from = alice;
  transactions = record { to = bob; from = alice; amount = 30; salt = 9 ∷ [] } ∷ [];
}

abbrev pub carol_batch : TransactionBatch
carol_batch = record {
  from = carol;
  transactions = record { to = bob; from = carol; amount = 5; salt = 8 ∷ [] } ∷ [];
}

abbrev pub round_root : Bytes
round_root = 1 ∷ 2 ∷ 30 ∷ 9 ∷ 3 ∷ 2 ∷ 5 ∷ 8 ∷ []

abbrev pub round_leaves : List Bytes
round_leaves = (1 ∷ 2 ∷ 30 ∷ 9 ∷ []) ∷ (3 ∷ 2 ∷ 5 ∷ 8 ∷ []) ∷ []

abbrev pub alice_proof : TransactionProof
alice_proof = record {
  proof_hashes = round_leaves;
  root = round_root;
  batch = alice_batch;
  index = 0;
  total_leaves = 2;
}

abbrev pub carol_proof : TransactionProof
carol_proof = record {
  proof_hashes = round_leaves;
  root = round_root;
  batch = carol_batch;
  index = 1;
  total_leaves = 2;
}

abbrev pub alice_signature : ToySignature
alice_signature = (alice, round_root)

abbrev pub carol_signature : ToySignature
carol_signature = (carol, round_root)

abbrev pub round_salt : Bytes
round_salt = 7 ∷ []

-- The aggregator while signatures are collected, and once both are in.
abbrev pub collecting : Aggregator
collecting =
    (start_collecting_signatures
      (add_batch carol_batch (add_batch alice_batch (new round_salt)).1).1).1

abbrev pub collected : Aggregator
collected =
    (add_signature carol carol_signature (add_signature alice alice_signature collecting).1).1

pub collecting-Reach : Reach (new round_salt) collecting
collecting-Reach = next (next (next here (batches alice_batch)) (batches carol_batch)) starts

pub collected-Reach : Reach (new round_salt) collected
collected-Reach =
    next (next collecting-Reach (signs alice alice_signature)) (signs carol carol_signature)

abbrev pub round_block : TransferBlock
round_block = record {
  signature = aggregated (alice_signature ∷ carol_signature ∷ []) (wrap alice ∷ wrap carol ∷ []);
  merkle_root = round_root;
}

abbrev pub before_block : MockRollupMemory
before_block = record {
  withdraw_totals = (wrap alice, 10) ∷ [];
  deposit_totals = (wrap alice, 100) ∷ (wrap carol, 50) ∷ [];
  transfer_blocks = [];
}

abbrev pub after_block : MockRollupMemory
after_block = record before_block { transfer_blocks = round_block ∷ [] }

abbrev pub alice_proofs : BalanceProof
alice_proofs = (record { root = round_root; public_key = wrap alice }, alice_proof) ∷ []

abbrev pub carol_proofs : BalanceProof
carol_proofs = (record { root = round_root; public_key = wrap carol }, carol_proof) ∷ []

-- The balances that those of alice give.
abbrev pub alice_balances : AccountTotals
alice_balances = (wrap alice, 60) ∷ (wrap bob, 30) ∷ []

abbrev pub both_balances : AccountTotals
both_balances = (wrap carol, 45) ∷ (wrap bob, 35) ∷ (wrap alice, 60) ∷ []

abbrev pub wallet_of : ℕ → Wallet
wallet_of key = record {
  wallet_name = none;
  public_key = key;
  private_key = key;
  balance_proof = [];
  transaction_batch = record { from = key; transactions = [] };
  batch_is_pending = false;
  balance = 0;
}

-- The wallet that has sent its batch, and waits for the proof.
abbrev pub alice_wallet : Wallet
alice_wallet = record (wallet_of alice) {
  transaction_batch = alice_batch;
  batch_is_pending = true;
  balance = 60;
}

abbrev pub no_faults : Files
no_faults = record {
  contents = [];
  create_dir_fails = false;
  open_fails = false;
  lock_fails = false;
  write_fails = false;
  unlock_fails = false;
  torn = [];
}
