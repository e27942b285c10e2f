-- ===== src/Tests/Starts.antt =====
-- The wallet program that starts on a file of alice's wallet.
use stateless_payments.Common.Int.{◌+ℤ◌, ◌-ℤ◌}
use stateless_payments.Types.Transaction.{
  verify_proof, batch_tx_hash, fed_hashes, transaction_tx_hash, transaction_into_hash,
}
use stateless_payments.Types.TransferBlock.{
  contains_pubkey, signature_contains, verify_block, verify_signature,
}
use stateless_payments.Rollup.Traits.{
  get_account_deposit_amount, get_account_withdraw_amount,
  get_transfer_block_for_merkle_root_and_pubkey,
}
use stateless_payments.Rollup.Fs.{Disk, fs_trait, read_state_from_fs}
use stateless_payments.Rollup.Fs.Refines.{of_memory}
use stateless_payments.Wallet.Utils.{
  calculate_balances_and_validate_balance_proof, unchecked_balances_of, checked_balances,
  checked_balance, check_proof, move_amounts,
}
use stateless_payments.Common.{false, ℕ, ◌+◌, ◌≡◌, refl, Bytes, some, [], ◌∷◌}
use stateless_payments.Common.Words.{debug}
use stateless_payments.Common.Outcome.{ok}
use stateless_payments.Types.PublicKey.{wrap, wrapper_Eq}
use stateless_payments.Types.Balance.{key_Eq}
use stateless_payments.Rollup.Memory.{memory_trait}
use stateless_payments.Wallet.Persist.{
  WalletPersistState, Files, content_of, wallet_path, into_wallet,
}
use stateless_payments.Wallet.Utils.Ledger.{sent, received}
use stateless_payments.Wallet.Utils.Balances.{proofs_of}
use stateless_payments.Websocket.Messages.{c_add_connection}
use stateless_payments.Websocket.Client.{SyncState}
use stateless_payments.Cli.Main.{start, restarted}
use stateless_payments.Tests.Crates.{
  toy_bls, toy_sha256, toy_merkle, toy_index_map, toy_serde_transaction,
}
use stateless_payments.Tests.Texts.{toy_key_codec, toy_serde_wallet, toy_serde_rollup, wallet_reads}
use stateless_payments.Tests.Wire.{toy_tungstenite, toy_serde_ws, toy_to_string}
use stateless_payments.Tests.Scene.{
  alice, carol, alice_proofs, alice_balances, after_block, no_faults,
}
use stateless_payments.Tests.Contracts.{after_block-IsSolvent}

abbrev name : Bytes
name = 5 ∷ []

abbrev saved : WalletPersistState
saved = record { balance_proof = alice_proofs; private_key = alice; wallet_name = some name }

abbrev saved_files : Files
saved_files = record no_faults {
  contents = (wallet_path name, toy_serde_wallet.to_writer saved) ∷ [];
}

-- The contract with the block, in its file.
abbrev block_disk : Disk
block_disk = record {
  content = toy_serde_rollup.to_writer (of_memory after_block);
  faults = record {
    open_fails = false;
    lock_fails = false;
    write_fails = false;
    unlock_fails = false;
    torn = [];
  };
}

block_disk_calculated :
    calculate_balances_and_validate_balance_proof block_disk alice_proofs ≡ ok alice_balances
unfolding calculate_balances_and_validate_balance_proof unchecked_balances_of checked_balances
    checked_balance check_proof move_amounts verify_proof batch_tx_hash fed_hashes
    transaction_tx_hash transaction_into_hash get_account_deposit_amount get_account_withdraw_amount
    get_transfer_block_for_merkle_root_and_pubkey verify_block verify_signature contains_pubkey
    signature_contains read_state_from_fs ◌+ℤ◌ ◌-ℤ◌
block_disk_calculated = refl

restarted_example :
    (n : ℕ) × (last : SyncState) × (files' : Files) × (start debug
        ((9 ∷ []) ∷ name ∷ [])
        carol
        block_disk
        (ok [])
        saved_files
      ≡ (
        ok (
          record {
            wallet = record (into_wallet saved) { balance = n };
            ws_send = toy_to_string (c_add_connection alice) ∷ [];
          },
          last,
        ),
        files',
      ))
    × (n + sent (wrap alice) (proofs_of alice_proofs) + 10
        ≡ received (wrap alice) (proofs_of alice_proofs) + 100)
    × (content_of (wallet_path name) files' ≡ toy_serde_wallet.to_writer saved)
restarted_example =
    restarted debug block_disk [] (9 ∷ []) name [] carol saved_files
      (record { creates = refl; opens = refl; locks = refl; writes = refl; unlocks = refl })
      (wallet_reads saved) refl
      (record { opens = refl; locks = refl; writes = refl; unlocks = refl }) after_block-IsSolvent
      block_disk_calculated refl
