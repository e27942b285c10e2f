-- ===== src/Tests/Payments.antt =====
-- Payments, and the order and the timing of what a wallet does, at the scene.
use mathlib.Core.List.{perm_append_comm}
use stateless_payments.Common.{ℕ, ◌+◌, ◌*◌, ◌<◌, ◌≡◌, refl, true, [], ◌∷◌, ◌++◌, inr, arith}
use stateless_payments.Common.Assoc.{lookup}
use stateless_payments.Common.Outcome.{ok}
use stateless_payments.Common.Words.{debug}
use stateless_payments.Types.PublicKey.{
  BlsPublicKeyWrapper, AccountTotals, wrap, eq_iff, wrapper_Eq,
}
use stateless_payments.Types.TransferBlock.{TransferBlock}
use stateless_payments.Types.Balance.{key_Eq}
use stateless_payments.Aggregator.{finalised, finalise}
use stateless_payments.Aggregator.Rounds.{reachable-IsValid}
use stateless_payments.Rollup.Traits.{get_account_deposit_amount, get_account_withdraw_amount}
use stateless_payments.Rollup.Memory.{add_transfer_block, memory_trait}
use stateless_payments.Wallet.Persist.{Files}
use stateless_payments.Wallet.Utils.{merge_into, calculate_balances_and_validate_balance_proof}
use stateless_payments.Wallet.Utils.Ledger.{involved}
use stateless_payments.Wallet.Utils.Balances.{proofs_of}
use stateless_payments.Wallet.Utils.Order.{balances-perm}
use stateless_payments.Wallet.Wallet.{
  add_receiving_transaction, append_transaction_to_batch, sync_rollup_state,
}
use stateless_payments.Wallet.Wallet.Resyncing.{resync_overspends}
use stateless_payments.Wallet.Wallet.Spending.{amounts}
use stateless_payments.Flow.Payment.{IsSpendable, payment_accepted}
use stateless_payments.Tests.Crates.{
  toy_bls, toy_sha256, toy_merkle, toy_index_map, toy_serde_transaction,
}
use stateless_payments.Tests.Texts.{toy_serde_wallet}
use stateless_payments.Tests.Scene.{
  alice, bob, alice_proof, alice_proofs, carol_proofs, both_balances, round_salt, collected,
  collected-Reach, before_block, after_block, wallet_of, no_faults,
}
use stateless_payments.Tests.Rounds.{
  collected_state, All-IsAugmented, alice_included, collected_root, alice_signer,
}
use stateless_payments.Tests.Balances.{both_calculated}
use stateless_payments.Tests.Wallets.{no_faults-IsHealthy}

pub alice_spends :
    (q : BlsPublicKeyWrapper)
    → involved q (proofs_of alice_proofs) ≡ true
    → IsSpendable before_block (proofs_of alice_proofs) q
alice_spends q h = record {
  covers = ground (arith, eq_iff q (wrap alice), eq_iff q (wrap bob));
  fits = ground (arith, eq_iff q (wrap alice), eq_iff q (wrap bob));
}

payment_accepted_example :
    (block : TransferBlock) × (n : ℕ) × (files' : Files) × (finalise collected
      ≡ (ok block, record collected { state = finalised block }))
    × (add_receiving_transaction
          (add_transfer_block block before_block).1
          alice_proof
          alice_proofs
          (wallet_of bob)
          no_faults
        ≡ (ok tt, (record (wallet_of bob) { balance = n; balance_proof = alice_proofs }, files')))
    × (n + 0 + 0 ≡ 30 + 0)
unfolding merge_into
payment_accepted_example =
    payment_accepted collected before_block alice_proof alice_proofs (wallet_of bob) no_faults
      (reachable-IsValid round_salt collected-Reach) collected_state All-IsAugmented tt
      alice_included collected_root alice_signer refl refl refl tt (inr refl, tt)
      no_faults-IsHealthy alice_spends

balances-perm_example :
    (others : AccountTotals) × (calculate_balances_and_validate_balance_proof after_block
        (alice_proofs ++ carol_proofs)
      ≡ ok others)
    × ((q : BlsPublicKeyWrapper) → lookup q others ≡ lookup q both_balances)
balances-perm_example =
    balances-perm after_block (carol_proofs ++ alice_proofs) (alice_proofs ++ carol_proofs)
      (perm_append_comm carol_proofs alice_proofs) both_calculated

alice_in_step :
    sync_rollup_state before_block debug (record (wallet_of alice) { balance = 90 })
    ≡ (ok tt, record (wallet_of alice) { balance = 90 })
unfolding sync_rollup_state calculate_balances_and_validate_balance_proof get_account_deposit_amount
    get_account_withdraw_amount
alice_in_step = refl

resync_overspends_example :
    let w = record (wallet_of alice) { balance = 90 } in
    let (first, w1) = append_transaction_to_batch bob 60 [] w in
    let (synced, w2) = sync_rollup_state before_block debug w1 in
    let (second, w3) = append_transaction_to_batch bob 60 (1 ∷ []) w2 in
    (first ≡ ok w1.transaction_batch)
    × (synced ≡ ok tt)
    × (second ≡ ok w3.transaction_batch)
    × (amounts w3.transaction_batch.transactions ≡ 0 + 2 * 60)
    × (90 < amounts w3.transaction_batch.transactions)
resync_overspends_example =
    resync_overspends before_block debug bob 60 [] (1 ∷ [])
      (record (wallet_of alice) { balance = 90 }) alice_in_step refl (λ h. omega arith)
      (omega arith) (omega arith)
