-- ===== src/Tests/Balances.antt =====
-- Wallet.Utils at the scene: balance proofs, and the balances that they give.
use stateless_payments.Common.{ℕ, ◌+◌, ◌≡◌, refl, ◌⊎◌, true, false, none, some, All, arith}
use stateless_payments.Common.Assoc.{lookup}
use stateless_payments.Common.{◌<◌, ◌^◌, ◌∷◌, ◌++◌, []}
use stateless_payments.Wallet.Utils.{UncheckedBalances}
use stateless_payments.Wallet.Utils.Ledger.{amount_at}
use stateless_payments.Wallet.Utils.Range.{amounts_in_range}
use stateless_payments.Common.Int.{pos, negsuc, pos_part, neg_part}
use stateless_payments.Common.Int.{◌+ℤ◌, ◌-ℤ◌}
use stateless_payments.Common.Outcome.{ok}
use stateless_payments.Types.PublicKey.{
  BlsPublicKeyWrapper, AccountTotals, wrap, eq_iff, wrapper_Eq,
}
use stateless_payments.Types.Transaction.{
  verify_proof, batch_tx_hash, fed_hashes, transaction_tx_hash, transaction_into_hash,
}
use stateless_payments.Types.TransferBlock.{
  verify_block, verify_signature, contains_pubkey, signature_contains,
}
use stateless_payments.Types.Balance.{key_Eq}
use stateless_payments.Rollup.Traits.{
  total_of, get_account_deposit_amount, get_account_withdraw_amount,
  get_transfer_block_for_merkle_root_and_pubkey,
}
use stateless_payments.Rollup.Memory.{memory_trait}
use stateless_payments.Wallet.Utils.{
  move_amounts, check_proof, unchecked_balances_of, checked_balance, checked_balances,
  calculate_balances_and_validate_balance_proof,
}
use stateless_payments.Wallet.Utils.Conserve.{
  sum_totals, sum_over, deposit_of, withdraw_of, balances_conserve,
}
use stateless_payments.Wallet.Utils.Ledger.{sent, received, involved}
use stateless_payments.Wallet.Utils.Balances.{proofs_of, IsConfirmed, IsBalance, balances_lem}
use stateless_payments.Wallet.Utils.Complete.{IsCovered, balances_total}
use stateless_payments.Tests.Crates.{toy_bls, toy_sha256, toy_merkle, toy_serde_transaction}
use stateless_payments.Tests.Texts.{toy_serde_wallet}
use stateless_payments.Tests.Scene.{
  alice, bob, alice_proof, alice_proofs, carol_proofs, alice_balances, both_balances, after_block,
}

pub alice_calculated :
    calculate_balances_and_validate_balance_proof after_block alice_proofs ≡ ok alice_balances
unfolding calculate_balances_and_validate_balance_proof unchecked_balances_of checked_balances
    checked_balance check_proof move_amounts verify_proof batch_tx_hash fed_hashes
    transaction_tx_hash transaction_into_hash get_account_deposit_amount get_account_withdraw_amount
    get_transfer_block_for_merkle_root_and_pubkey verify_block verify_signature contains_pubkey
    signature_contains ◌+ℤ◌ ◌-ℤ◌
alice_calculated = refl

-- Both senders' proofs, with that of alice last.
pub both_calculated :
    calculate_balances_and_validate_balance_proof after_block (carol_proofs ++ alice_proofs)
    ≡ ok both_balances
unfolding calculate_balances_and_validate_balance_proof unchecked_balances_of checked_balances
    checked_balance check_proof move_amounts verify_proof batch_tx_hash fed_hashes
    transaction_tx_hash transaction_into_hash get_account_deposit_amount get_account_withdraw_amount
    get_transfer_block_for_merkle_root_and_pubkey verify_block verify_signature contains_pubkey
    signature_contains ◌+ℤ◌ ◌-ℤ◌
both_calculated = refl

alice_confirmed : check_proof after_block alice_proof ≡ ok tt
unfolding check_proof verify_proof batch_tx_hash fed_hashes transaction_tx_hash
    transaction_into_hash get_transfer_block_for_merkle_root_and_pubkey verify_block
    verify_signature contains_pubkey signature_contains
alice_confirmed = refl

balances_conserve_example :
    sum_totals alice_balances + sum_over (withdraw_of after_block) alice_balances
    ≡ sum_over (deposit_of after_block) alice_balances
balances_conserve_example = balances_conserve after_block alice_proofs alice_calculated

balances_lem_example :
    All (IsConfirmed after_block) (proofs_of alice_proofs)
    × ((lookup (wrap bob) alice_balances ≡ none)
          × (involved (wrap bob) (proofs_of alice_proofs) ≡ false)
        ⊎ (n : ℕ) × (lookup (wrap bob) alice_balances ≡ some n)
          × (involved (wrap bob) (proofs_of alice_proofs) ≡ true)
          × IsBalance after_block
              (wrap bob)
              (received (wrap bob) (proofs_of alice_proofs))
              (sent (wrap bob) (proofs_of alice_proofs))
              n)
balances_lem_example = balances_lem after_block alice_proofs (wrap bob) alice_calculated

alice_covers :
    (q : BlsPublicKeyWrapper)
    → involved q (proofs_of alice_proofs) ≡ true
    → IsCovered after_block q
        (received q (proofs_of alice_proofs))
        (sent q (proofs_of alice_proofs))
unfolding get_account_deposit_amount get_account_withdraw_amount
alice_covers q h = record {
  deposit = total_of q after_block.deposit_totals;
  withdraw = total_of q after_block.withdraw_totals;
  deposited = refl;
  withdrawn = refl;
  covers = ground (arith, eq_iff q (wrap alice), eq_iff q (wrap bob));
  fits = ground (arith, eq_iff q (wrap alice), eq_iff q (wrap bob));
}

balances_total_example :
    (balances : AccountTotals) × (calculate_balances_and_validate_balance_proof after_block
        alice_proofs
      ≡ ok balances)
balances_total_example = balances_total after_block alice_proofs (alice_confirmed, tt) alice_covers

abbrev alice_amounts : UncheckedBalances
alice_amounts = (wrap alice, negsuc 29) ∷ (wrap bob, pos 30) ∷ []

alice_unchecked : unchecked_balances_of after_block (alice_proof ∷ []) [] ≡ ok alice_amounts
unfolding unchecked_balances_of check_proof move_amounts verify_proof batch_tx_hash fed_hashes
    transaction_tx_hash transaction_into_hash get_transfer_block_for_merkle_root_and_pubkey
    verify_block verify_signature contains_pubkey signature_contains ◌+ℤ◌ ◌-ℤ◌
alice_unchecked = refl

amounts_in_range_example :
    (pos_part (amount_at (wrap bob) alice_amounts) + 100 < 2 ^ 127)
    × (neg_part (amount_at (wrap bob) alice_amounts) + 100 < 2 ^ 127)
amounts_in_range_example =
    amounts_in_range after_block (alice_proof ∷ []) (wrap bob) 100 ((omega arith, tt), tt)
      (omega arith) alice_unchecked (omega arith)
