-- ===== src/Wallet/Wallet.antt =====
-- src/wallet/wallet.rs: the operations of a wallet. Those that save it work on the wallet and the
-- files; `salt` is what `generate_salt` draws.
pub mod Spending
pub mod Signing
pub mod Receiving
pub mod Accepting
pub mod Syncing
pub mod Resyncing
use stateless_payments.Common.{
  ℕ, Bytes, Bool, true, false, not, nat_eq, bytes_eq, Option, none, some, List, [], ◌∷◌, ◌++◌, any,
  is_empty, ◌==◌,
}
use stateless_payments.Common.Assoc.{lookup, contains_key, insert}
use stateless_payments.Common.Outcome.{
  Result, ok, err, panic, fail_if, ok_or, on_ok, map_ok, ◌>>=◌, ◌>>◌,
}
use stateless_payments.Common.Words.{Profile, checked_sub, sub_u64}
use stateless_payments.External.Bls.{Bls}
use stateless_payments.External.Sha2.{Sha256}
use stateless_payments.External.RsMerkle.{RsMerkle}
use stateless_payments.Types.PublicKey.{BlsPublicKeyWrapper, AccountTotals, wrap, wrapper_Eq}
use stateless_payments.Types.Transaction.{
  SimpleTransaction, TransactionBatch, TransactionProof, SerdeTransaction, sha256_algorithm_hash,
  new_batch, batch_tx_hash, verify_proof,
}
use stateless_payments.Types.Errors.{
  CrateResult, anyhow, from_bls, batch_currently_pending, cannot_send_to_self,
  amount_must_be_positive, insufficient_balance, batch_is_empty, batch_already_pending,
  not_addressed_to_user, invalid_transaction, not_in_senders_proof, balance_not_found,
  no_batch_to_sign, proof_does_not_match, batch_not_from_user, invalid_transaction_proof,
}
use stateless_payments.Types.Balance.{BalanceProofKey, BalanceProof, key_Eq}
use stateless_payments.Rollup.Traits.{
  RollupStateTrait, get_account_deposit_amount, get_account_withdraw_amount,
}
use stateless_payments.Wallet.Utils.{
  merge_balance_proofs, calculate_balances_and_validate_balance_proof,
}
use stateless_payments.Wallet.Persist.{Wallet, Files, SerdeWallet, save_wallet_state}

module _ ⦃b : Bls⦄ where
  -- The checks of `append_transaction_to_batch`, which end in the new balance.
  unfoldable pub can_append : b.PublicKey → ℕ → Wallet → CrateResult ℕ
  can_append to amount self = do
    fail_if self.batch_is_pending (anyhow batch_currently_pending)
    fail_if (b.public_key_eq.beq to self.public_key) (anyhow cannot_send_to_self)
    fail_if (nat_eq amount 0) (anyhow amount_must_be_positive)
    ok_or (checked_sub self.balance amount) (anyhow insufficient_balance)

  abbrev pub new_transaction : b.PublicKey → ℕ → Bytes → Wallet → SimpleTransaction
  new_transaction to amount salt self = record {
    to = to;
    from = self.public_key;
    amount = amount;
    salt = salt;
  }

  abbrev pub push_transaction : SimpleTransaction → TransactionBatch → TransactionBatch
  push_transaction transaction batch = record batch {
    transactions = batch.transactions ++ transaction ∷ [];
  }

  unfoldable pub append_transaction_to_batch :
      b.PublicKey → ℕ → Bytes → Wallet → CrateResult TransactionBatch × Wallet
  unfolding can_append
  append_transaction_to_batch to amount salt self =
      on_ok (can_append to amount self) self λ balance.
        let batch = push_transaction (new_transaction to amount salt self) self.transaction_batch in
        (ok batch, record self { balance = balance; transaction_batch = batch })

  -- The checks of `produce_batch`.
  unfoldable pub can_produce : Wallet → CrateResult (Unit {0})
  can_produce self = do
    fail_if (is_empty self.transaction_batch.transactions) (anyhow batch_is_empty)
    fail_if self.batch_is_pending (anyhow batch_already_pending)

  unfoldable pub produce_batch : Wallet → CrateResult TransactionBatch × Wallet
  unfolding can_produce
  produce_batch self =
      on_ok (can_produce self) self
        λ _. (ok self.transaction_batch, record self { batch_is_pending = true })

  -- The key under which a wallet keeps the proof of its own batch.
  abbrev pub own_key : Bytes → Wallet → BalanceProofKey
  own_key root self = record { root = root; public_key = wrap self.public_key }

  -- The wallet once a transaction is received.
  abbrev pub received_wallet : BalanceProof × ℕ → Wallet → Wallet
  received_wallet (merged_proof, balance) self = record self {
    balance = balance;
    balance_proof = merged_proof;
  }

  -- The key under which a proof stands in its sender's balance proof.
  abbrev pub key_of : TransactionProof → BalanceProofKey
  key_of proof = record { root = proof.root; public_key = wrap proof.batch.from }

module _ ⦃b : Bls⦄ ⦃s : Sha256⦄ ⦃j : SerdeTransaction⦄ ⦃m : RsMerkle sha256_algorithm_hash⦄ where
  -- The checks of `validate_and_sign_proof`, and the signature.
  unfoldable pub sign_checked : TransactionProof → Wallet → CrateResult b.Signature
  sign_checked transaction_proof self = do
    fail_if (not self.batch_is_pending) (anyhow no_batch_to_sign)
    fail_if
        (not
          (bytes_eq (batch_tx_hash self.transaction_batch) (batch_tx_hash transaction_proof.batch)))
        (anyhow proof_does_not_match)
    fail_if (not (b.public_key_eq.beq transaction_proof.batch.from self.public_key))
        (anyhow batch_not_from_user)
    fail_if (not (verify_proof transaction_proof)) (anyhow invalid_transaction_proof)
    from_bls (b.sign self.private_key transaction_proof.root)

  -- The wallet once a proof is signed.
  abbrev pub signed_wallet : TransactionProof → Wallet → Wallet
  signed_wallet transaction_proof self = record self {
    balance_proof =
        insert (own_key transaction_proof.root self) transaction_proof self.balance_proof;
    transaction_batch = new_batch self.public_key;
    batch_is_pending = false;
  }

  module _ ⦃c : SerdeWallet⦄ where
    -- `self.save_wallet_state()?`, then the value.
    abbrev pub save_then : {A : Type 0} → A → Wallet → Files → CrateResult A × (Wallet × Files)
    save_then value self files =
        let (saved, files') = save_wallet_state self files in
        (map_ok (λ _. value) saved, (self, files'))

    unfoldable pub validate_and_sign_proof :
        TransactionProof → Wallet → Files → CrateResult b.Signature × (Wallet × Files)
    unfolding sign_checked
    validate_and_sign_proof transaction_proof self files =
        on_ok (sign_checked transaction_proof self) (self, files)
          λ signature. save_then signature (signed_wallet transaction_proof self) files

  module _ {State : Type 0} ⦃t : RollupStateTrait State⦄ (rollup_contract : State) where
    -- The checks of `add_receiving_transaction`, which end in the merged proof and the balance.
    unfoldable pub receive_checked :
        TransactionProof → BalanceProof → Wallet → CrateResult (BalanceProof × ℕ)
    receive_checked transaction_proof senders_balance_proof self = do
      fail_if
          (not (
            any (λ t. b.public_key_eq.beq t.to self.public_key)
              transaction_proof.batch.transactions))
          (anyhow not_addressed_to_user)
      fail_if (not (verify_proof transaction_proof)) (anyhow invalid_transaction)
      fail_if (not (contains_key (key_of transaction_proof) senders_balance_proof))
          (anyhow not_in_senders_proof)
      merged_proof ← merge_balance_proofs self.balance_proof senders_balance_proof
      balances ← calculate_balances_and_validate_balance_proof rollup_contract merged_proof
      current_users_balance ←
          ok_or (lookup (wrap self.public_key) balances) (anyhow balance_not_found)
      ok (merged_proof, current_users_balance)

    -- The balance that `sync_rollup_state` stores.
    unfoldable pub synced_balance : Profile → Wallet → CrateResult ℕ
    synced_balance profile self = do
      balances ← calculate_balances_and_validate_balance_proof rollup_contract self.balance_proof
      elim (lookup (wrap self.public_key) balances) [
        | some current_users_balance ↦ ok current_users_balance
        | none ↦ do
          deposit_amount ← get_account_deposit_amount self.public_key rollup_contract
          withdraw_amount ← get_account_withdraw_amount self.public_key rollup_contract
          sub_u64 profile deposit_amount withdraw_amount
      ]

    unfoldable pub sync_rollup_state : Profile → Wallet → CrateResult (Unit {0}) × Wallet
    unfolding synced_balance
    sync_rollup_state profile self =
        on_ok (synced_balance profile self) self
          λ balance. (ok tt, record self { balance = balance })

    module _ ⦃c : SerdeWallet⦄ where
      unfoldable pub add_receiving_transaction :
          TransactionProof
          → BalanceProof
          → Wallet
          → Files
          → CrateResult (Unit {0}) × (Wallet × Files)
      unfolding receive_checked
      add_receiving_transaction transaction_proof senders_balance_proof self files =
          on_ok (receive_checked transaction_proof senders_balance_proof self) (self, files)
            λ received. save_then tt (received_wallet received self) files
