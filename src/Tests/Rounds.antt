-- ===== src/Tests/Rounds.antt =====
-- Aggregator and Flow at a round of two senders.
use stateless_payments.Common.{
  ℕ, ◌≡◌, ◌≢◌, ◌≤◌, refl, true, none, some, [], ◌∷◌, any, map, All, ◌==◌, arith,
}
use stateless_payments.Common.Assoc
use stateless_payments.Common.Outcome.{ok}
use stateless_payments.Types.PublicKey.{wrap, wrapper_Eq}
use stateless_payments.Types.Transaction.{
  TransactionProof, verify_proof, batch_tx_hash, fed_hashes, transaction_tx_hash,
  transaction_into_hash,
}
use stateless_payments.Types.TransferBlock.{
  TransferBlock, verify_block, contains_pubkey, new_aggregated, new_signature,
}
use stateless_payments.Aggregator.{
  TxMetadata, collect_signatures, finalised, new, root, check_aggregator_state, can_start,
  start_collecting_signatures, can_add_batch, add_batch, can_add_signature, add_signature,
  generate_proof_for_pubkey, signatures_and_public_keys, transfer_block_of, finalise,
}
use stateless_payments.Aggregator.Invariant.{IsValid, entries_of}
use stateless_payments.Aggregator.Finalise.{signers, finalise-verifies}
use stateless_payments.Aggregator.Proofs.{generate_proof_verifies}
use stateless_payments.Aggregator.Rounds.{
  rank, Reach, here, next, finalises, signs, reachable-IsValid,
}
use stateless_payments.Rollup.Memory.{add_transfer_block}
use stateless_payments.Wallet.Utils.{check_proof}
use stateless_payments.Wallet.Wallet.Spending
use stateless_payments.Flow.Confirm.{IsSigned, finalised_confirms}
use stateless_payments.Rollup.Memory.{memory_trait}
use stateless_payments.Tests.Crates.{
  toy_bls, toy_sha256, toy_merkle, toy_index_map, toy_serde_transaction,
}
use stateless_payments.Tests.Scene.{
  alice, carol, alice_batch, round_root, alice_proof, alice_signature, carol_signature, round_salt,
  collecting, collected, collecting-Reach, collected-Reach, round_block, before_block, alice_wallet,
}

abbrev pub alice_metadata : TxMetadata
alice_metadata = record { index = 0; batch = alice_batch; signature = none }

pub collecting_state : collecting.state ≡ collect_signatures
unfolding start_collecting_signatures can_start add_batch can_add_batch check_aggregator_state new
collecting_state = refl

pub collected_state : collected.state ≡ collect_signatures
unfolding add_signature can_add_signature root start_collecting_signatures can_start add_batch
    can_add_batch check_aggregator_state new batch_tx_hash fed_hashes transaction_tx_hash
    transaction_into_hash
collected_state = refl

-- Both signed.
collected-signers :
    signers (entries_of collected) ≡ (alice, alice_signature) ∷ (carol, carol_signature) ∷ []
unfolding add_signature can_add_signature root start_collecting_signatures can_start add_batch
    can_add_batch check_aggregator_state new batch_tx_hash fed_hashes transaction_tx_hash
    transaction_into_hash signatures_and_public_keys
collected-signers = refl

-- The block of the round.
collected_block : (finalise collected).0 ≡ ok round_block
unfolding add_signature can_add_signature root start_collecting_signatures can_start add_batch
    can_add_batch check_aggregator_state new batch_tx_hash fed_hashes transaction_tx_hash
    transaction_into_hash signatures_and_public_keys finalise transfer_block_of new_signature
    new_aggregated
collected_block = refl

pub collected_root : root collected ≡ ok round_root
unfolding add_signature can_add_signature root start_collecting_signatures can_start add_batch
    can_add_batch check_aggregator_state new batch_tx_hash fed_hashes transaction_tx_hash
    transaction_into_hash
collected_root = refl

pub collecting_metadata : (Assoc.lookup (wrap alice) (entries_of collecting) ≡ some alice_metadata)
unfolding start_collecting_signatures can_start add_batch can_add_batch check_aggregator_state new
    batch_tx_hash fed_hashes transaction_tx_hash transaction_into_hash
collecting_metadata = refl

reachable-IsValid_example : IsValid collected
reachable-IsValid_example = reachable-IsValid round_salt collected-Reach

pub some_signed : signers (entries_of collected) ≢ []
some_signed = rw collected-signers (λ e. cc)

pub All-IsAugmented : All toy_bls.IsAugmented (map (λ x. x.1) (signers (entries_of collected)))
All-IsAugmented = rw collected-signers (tt, (tt, tt))

finalise-verifies_example :
    (block : TransferBlock) × (finalise collected
      ≡ (ok block, record collected { state = finalised block }))
    × (verify_block block ≡ ok tt)
    × (root collected ≡ ok block.merkle_root)
    × ((pk : ℕ)
        → contains_pubkey block pk
          ≡ any (λ v. wrap v.0 == wrap pk) (signers (entries_of collected)))
finalise-verifies_example =
    finalise-verifies collected (reachable-IsValid round_salt collected-Reach) collected_state
      some_signed All-IsAugmented

generate_proof_verifies_example :
    (p : TransactionProof) × (generate_proof_for_pubkey collecting alice ≡ ok p)
    × (verify_proof p ≡ true)
    × (p.batch ≡ alice_batch)
    × (wrap p.batch.from ≡ wrap alice)
    × (root collecting ≡ ok p.root)
generate_proof_verifies_example =
    generate_proof_verifies collecting alice alice_metadata
      (reachable-IsValid round_salt collecting-Reach) collecting_state collecting_metadata

collected-finalises : Reach collecting (finalise collected).1
collected-finalises =
    next (next (next here (signs alice alice_signature)) (signs carol carol_signature)) finalises

collecting_rank : 1 ≤ rank collecting.state
collecting_rank = rw collecting_state (omega arith)

first_batch :
    add_batch alice_batch (new round_salt) ≡ (ok tt, (add_batch alice_batch (new round_salt)).1)
unfolding add_batch can_add_batch check_aggregator_state new
first_batch = refl

pub alice_included : verify_proof alice_proof ≡ true
unfolding verify_proof batch_tx_hash fed_hashes transaction_tx_hash transaction_into_hash
alice_included = refl

pub alice_signer :
    any (λ v. wrap v.0 == wrap alice_proof.batch.from) (signers (entries_of collected)) ≡ true
alice_signer = rw collected-signers refl

finalised_confirms_example :
    (block : TransferBlock) × (finalise collected
      ≡ (ok block, record collected { state = finalised block }))
    × (check_proof (add_transfer_block block before_block).1 alice_proof ≡ ok tt)
    × IsSigned (add_transfer_block block before_block).1
finalised_confirms_example =
    finalised_confirms collected before_block alice_proof
      (reachable-IsValid round_salt collected-Reach) collected_state All-IsAugmented tt
      alice_included collected_root alice_signer

pub alice_wallet-IsValid : Spending.IsValid alice_wallet
alice_wallet-IsValid = record {
  own_key = refl;
  owner = refl;
  sound = ((refl, λ h. omega arith, λ h. omega arith), tt);
  filled = refl;
}
