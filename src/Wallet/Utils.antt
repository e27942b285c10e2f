-- ===== src/Wallet/Utils.antt =====
-- src/wallet/utils.rs: merging balance proofs, and the balances that a balance proof gives.
pub mod Merge
pub mod Ledger
pub mod Conserve
pub mod Balances
pub mod Complete
pub mod Range
pub mod Order
use stateless_payments.Common.{
  ℕ, Bool, true, false, not, Option, none, some, List, [], ◌∷◌, map, if◌then◌else◌,
}
use stateless_payments.Common.Assoc.{HashMap, contains_key, insert, upsert}
use stateless_payments.Common.Int.{ℤ, pos, ◌+ℤ◌, ◌-ℤ◌}
use stateless_payments.Common.Outcome.{Result, ok, err, fail_if, ok_or, ◌>>=◌, ◌>>◌}
use stateless_payments.Common.Words.{try_into_u64}
use stateless_payments.External.Bls.{Bls}
use stateless_payments.External.Sha2.{Sha256}
use stateless_payments.External.RsMerkle.{RsMerkle}
use stateless_payments.Types.PublicKey.{
  BlsPublicKeyWrapper, AccountTotals, wrap, unwrap, wrapper_Eq,
}
use stateless_payments.Types.Transaction.{
  SimpleTransaction, TransactionBatch, TransactionProof, SerdeTransaction, sha256_algorithm_hash,
  verify_proof,
}
use stateless_payments.Types.Errors.{
  CrateResult, anyhow, crate_error, batch_not_in_a_transfer_block, invalid_transaction_proof_for,
  balance_is_negative,
}
use stateless_payments.Types.TransferBlock.{TransferBlock, verify_block}
use stateless_payments.Types.Balance.{BalanceProofKey, BalanceProof, key_Eq}
use stateless_payments.Rollup.Traits.{
  RollupStateTrait, get_account_deposit_amount, get_account_withdraw_amount,
  get_transfer_block_for_merkle_root_and_pubkey,
}

module _ ⦃b : Bls⦄ where
  -- The loop of `merge_balance_proofs`.
  unfoldable pub merge_into : BalanceProof → BalanceProof → BalanceProof
  merge_into merged [] = merged
  merge_into merged ((key, value) ∷ rest) =
      merge_into (if contains_key key merged then merged else insert key value merged) rest

  unfoldable pub merge_balance_proofs : BalanceProof → BalanceProof → CrateResult BalanceProof
  unfolding merge_into
  merge_balance_proofs current_client_balance_proof sender_balance_proof =
      ok (merge_into current_client_balance_proof sender_balance_proof)

  abbrev pub UncheckedBalances : Type 0
  UncheckedBalances = HashMap BlsPublicKeyWrapper ℤ

  -- `entry(key).and_modify(|e| *e -= amount).or_insert(-amount)`
  abbrev pub debit : BlsPublicKeyWrapper → ℕ → UncheckedBalances → UncheckedBalances
  debit key amount = upsert key (λ e. e -ℤ pos amount) (pos 0 -ℤ pos amount)

  -- `entry(key).and_modify(|e| *e += amount).or_insert(amount)`
  abbrev pub credit : BlsPublicKeyWrapper → ℕ → UncheckedBalances → UncheckedBalances
  credit key amount = upsert key (λ e. e +ℤ pos amount) (pos amount)

  -- The inner loop: the transactions of a batch.
  unfoldable pub move_amounts :
      b.PublicKey → List SimpleTransaction → UncheckedBalances → UncheckedBalances
  move_amounts from [] balances = balances
  move_amounts from (tx ∷ txs) balances =
      move_amounts from txs (credit (wrap tx.to) tx.amount (debit (wrap from) tx.amount balances))

module _ ⦃b : Bls⦄ ⦃s : Sha256⦄ ⦃j : SerdeTransaction⦄ ⦃m : RsMerkle sha256_algorithm_hash⦄
    {State : Type 0} ⦃t : RollupStateTrait State⦄ (rollup_state : State) where
  -- What the loop checks of a proof: its path, its transfer block, and that block's signature.
  unfoldable pub check_proof : TransactionProof → CrateResult (Unit {0})
  check_proof transaction_proof = do
    fail_if (not (verify_proof transaction_proof)) (anyhow invalid_transaction_proof_for)
    found ←
        get_transfer_block_for_merkle_root_and_pubkey transaction_proof.root
          transaction_proof.batch.from rollup_state
    transfer_block ←
        ok_or found (crate_error (batch_not_in_a_transfer_block transaction_proof.batch))
    verify_block transfer_block

  -- The loop over the proofs.
  unfoldable pub unchecked_balances_of :
      List TransactionProof → UncheckedBalances → CrateResult UncheckedBalances
  unfolding check_proof move_amounts
  unchecked_balances_of [] balances = ok balances
  unchecked_balances_of (proof ∷ proofs) balances =
      check_proof proof
      >> unchecked_balances_of proofs
          (move_amounts proof.batch.from proof.batch.transactions balances)

  -- `amount + deposit_amount as i128 - withdraw_amount as i128`, as a `u64`
  unfoldable pub checked_balance : BlsPublicKeyWrapper → ℤ → CrateResult ℕ
  checked_balance public_key amount = do
    deposit_amount ← get_account_deposit_amount (unwrap public_key) rollup_state
    withdraw_amount ← get_account_withdraw_amount (unwrap public_key) rollup_state
    ok_or (try_into_u64 (amount +ℤ pos deposit_amount -ℤ pos withdraw_amount))
        (anyhow balance_is_negative)

  -- The loop over the accounts.
  unfoldable pub checked_balances : UncheckedBalances → AccountTotals → CrateResult AccountTotals
  unfolding checked_balance
  checked_balances [] balances = ok balances
  checked_balances ((public_key, amount) ∷ rest) balances = do
    balance ← checked_balance public_key amount
    checked_balances rest (insert public_key balance balances)

  unfoldable pub calculate_balances_and_validate_balance_proof :
      BalanceProof → CrateResult AccountTotals
  unfolding unchecked_balances_of checked_balances
  calculate_balances_and_validate_balance_proof balance_proof = do
    unchecked_balances ← unchecked_balances_of (map (λ kv. kv.1) balance_proof) []
    checked_balances unchecked_balances []
