-- ===== src/Tests/Wallets.antt =====
-- The operations of a wallet at the scene.
use stateless_payments.Common.{
  ℕ, ◌+◌, ◌≡◌, refl, false, none, some, [], ◌∷◌, ◌==◌, if◌then◌else◌, arith,
}
use stateless_payments.Common.Assoc.{lookup}
use stateless_payments.Common.Int.{◌+ℤ◌, ◌-ℤ◌}
use stateless_payments.Common.Outcome.{ok}
use stateless_payments.Common.Words.{debug}
use stateless_payments.Types.PublicKey.{wrap, wrapper_Eq}
use stateless_payments.Types.Transaction.{
  verify_proof, batch_tx_hash, fed_hashes, transaction_tx_hash, transaction_into_hash, new_batch,
}
use stateless_payments.Types.TransferBlock.{
  verify_block, verify_signature, contains_pubkey, signature_contains,
}
use stateless_payments.Types.Balance.{BalanceProofKey, key_Eq}
use stateless_payments.Rollup.Traits.{
  get_account_deposit_amount, get_account_withdraw_amount,
  get_transfer_block_for_merkle_root_and_pubkey,
}
use stateless_payments.Rollup.Memory.{memory_trait}
use stateless_payments.Wallet.Utils.{
  merge_into, merge_balance_proofs, move_amounts, check_proof, unchecked_balances_of,
  checked_balance, checked_balances, calculate_balances_and_validate_balance_proof,
}
use stateless_payments.Wallet.Utils.Ledger.{sent, received}
use stateless_payments.Wallet.Utils.Balances.{proofs_of}
use stateless_payments.Wallet.Persist.{Wallet, Files, save_wallet_state, load_wallet_state}
use stateless_payments.Wallet.Persist.RoundTrip.{IsHealthy, load-save}
use stateless_payments.Wallet.Wallet.{
  own_key, append_transaction_to_batch, sign_checked, signed_wallet, validate_and_sign_proof,
  receive_checked, received_wallet, add_receiving_transaction, sync_rollup_state,
}
use stateless_payments.Wallet.Wallet.Spending.{IsValid, amounts, append_conserves}
use stateless_payments.Wallet.Wallet.Signing.{IsAccepted, validate_and_sign_lem}
use stateless_payments.Wallet.Wallet.Receiving.{IsReceived, add_receiving_lem}
use stateless_payments.Wallet.Wallet.Syncing.{sync_lem}
use stateless_payments.Tests.Crates.{toy_bls, toy_sha256, toy_merkle, toy_serde_transaction}
use stateless_payments.Tests.Texts.{toy_serde_wallet}
use stateless_payments.Tests.Balances.{alice_calculated}
use stateless_payments.Tests.Contracts.{after_block-IsSolvent}
use stateless_payments.Tests.Scene.{
  alice, bob, carol, round_root, alice_proof, alice_signature, alice_proofs, after_block,
  alice_wallet, wallet_of, no_faults,
}

alice_wallet-IsValid : IsValid alice_wallet
alice_wallet-IsValid = record {
  own_key = refl;
  owner = refl;
  sound = ((refl, λ h. omega arith, λ h. omega arith), tt);
  filled = refl;
}

append_conserves_example :
    let w' =
      (append_transaction_to_batch bob 20 [] (record (wallet_of alice) { balance = 90 })).1 in
    w'.balance + amounts w'.transaction_batch.transactions ≡ 90 + 0
append_conserves_example = append_conserves bob 20 [] (record (wallet_of alice) { balance = 90 })

alice_signs :
    validate_and_sign_proof alice_proof alice_wallet no_faults
    ≡ (ok alice_signature, (signed_wallet alice_proof alice_wallet, no_faults))
unfolding validate_and_sign_proof sign_checked verify_proof batch_tx_hash fed_hashes
    transaction_tx_hash transaction_into_hash save_wallet_state
alice_signs = refl

validate_and_sign_lem_example :
    IsAccepted alice_proof alice_wallet alice_signature
    × (toy_bls.verify alice_signature alice round_root ≡ ok tt)
    × Unit {0}
    × ((q : BalanceProofKey)
        → lookup q (signed_wallet alice_proof alice_wallet).balance_proof
          ≡ (if q == own_key round_root alice_wallet then some alice_proof else none))
    × (new_batch alice ≡ new_batch alice)
    × (false ≡ false)
    × ((signed_wallet alice_proof alice_wallet).balance ≡ 60)
validate_and_sign_lem_example =
    validate_and_sign_lem alice_proof alice_wallet (signed_wallet alice_proof alice_wallet)
      no_faults no_faults alice_signature alice_wallet-IsValid alice_signs

abbrev bob_after : Wallet
bob_after = received_wallet (alice_proofs, 30) (wallet_of bob)

bob_receives :
    add_receiving_transaction after_block alice_proof alice_proofs (wallet_of bob) no_faults
    ≡ (ok tt, (bob_after, no_faults))
unfolding add_receiving_transaction receive_checked merge_balance_proofs merge_into
    save_wallet_state calculate_balances_and_validate_balance_proof unchecked_balances_of
    checked_balances checked_balance check_proof move_amounts verify_proof batch_tx_hash fed_hashes
    transaction_tx_hash transaction_into_hash get_account_deposit_amount get_account_withdraw_amount
    get_transfer_block_for_merkle_root_and_pubkey verify_block verify_signature contains_pubkey
    signature_contains ◌+ℤ◌ ◌-ℤ◌
bob_receives = refl

add_receiving_lem_example :
    IsReceived after_block alice_proof alice_proofs (wallet_of bob) alice_proofs 30
    × (bob ≡ bob)
    × (new_batch bob ≡ new_batch bob)
    × (false ≡ false)
add_receiving_lem_example =
    add_receiving_lem after_block alice_proof alice_proofs (wallet_of bob) bob_after no_faults
      no_faults bob_receives

abbrev synced_wallet : Wallet
synced_wallet = record (wallet_of alice) { balance_proof = alice_proofs }

sync_lem_example :
    (n : ℕ) × (sync_rollup_state after_block debug synced_wallet
      ≡ (ok tt, record synced_wallet { balance = n }))
    × (n + sent (wrap alice) (proofs_of alice_proofs) + 10
        ≡ received (wrap alice) (proofs_of alice_proofs) + 100)
sync_lem_example = sync_lem debug after_block synced_wallet after_block-IsSolvent alice_calculated

abbrev named_wallet : Wallet
named_wallet = record synced_wallet { wallet_name = some (5 ∷ []) }

pub no_faults-IsHealthy : IsHealthy no_faults
no_faults-IsHealthy = record {
  creates = refl;
  opens = refl;
  locks = refl;
  writes = refl;
  unlocks = refl;
}

load-save_example :
    (back : Wallet) × (files' : Files) × (load_wallet_state
        (5 ∷ [])
        carol
        (save_wallet_state named_wallet no_faults).1
      ≡ (ok back, files'))
    × (back.public_key ≡ alice)
    × (back.private_key ≡ alice)
    × (back.wallet_name ≡ some (5 ∷ []))
    × ((q : BalanceProofKey) → lookup q back.balance_proof ≡ lookup q alice_proofs)
    × (back.transaction_batch ≡ new_batch alice)
    × (back.balance ≡ 0)
load-save_example = load-save named_wallet (5 ∷ []) carol no_faults no_faults-IsHealthy refl refl
