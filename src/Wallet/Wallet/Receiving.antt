-- ===== src/Wallet/Wallet/Receiving.antt =====
-- What a wallet accepts from a sender (add_receiving_transaction in src/wallet/wallet.rs).
use stateless_payments.Common.{ℕ, bytes_Eq, ◌≡◌, true, not, none, some, any, All, arith}
use stateless_payments.Common.Assoc.{lookup, contains_key}
use stateless_payments.Common.Outcome.{ok, fail_if, ok_or, on_ok_inv, >>=-eq-ok, ok_or-eq-ok}
use stateless_payments.External.Bls.{Bls}
use stateless_payments.External.Sha2.{Sha256}
use stateless_payments.External.RsMerkle.{RsMerkle}
use stateless_payments.Types.PublicKey.{wrap, wrapper_Eq}
use stateless_payments.Types.Transaction.{
  TransactionProof, SerdeTransaction, sha256_algorithm_hash, verify_proof,
}
use stateless_payments.Types.Errors.{
  anyhow, balance_not_found, not_addressed_to_user, invalid_transaction, not_in_senders_proof,
}
use stateless_payments.Types.Balance.{BalanceProofKey, BalanceProof, key_Eq}
use stateless_payments.Rollup.Traits.{RollupStateTrait}
use stateless_payments.Wallet.Persist.{Wallet, Files, SerdeWallet}
use stateless_payments.Wallet.Utils.{
  merge_balance_proofs, merge_into, calculate_balances_and_validate_balance_proof,
}
use stateless_payments.Wallet.Utils.Merge.{lookup-merge_into}
use stateless_payments.Wallet.Utils.Ledger.{sent, received}
use stateless_payments.Wallet.Utils.Balances.{
  proofs_of, IsConfirmed, IsBalance, balances_lem, IsBalance-found,
}
use stateless_payments.Wallet.Wallet.{
  key_of, receive_checked, received_wallet, add_receiving_transaction,
}
use stateless_payments.Wallet.Wallet.Signing.{save_then_inv}

module _ ⦃b : Bls⦄ ⦃s : Sha256⦄ ⦃j : SerdeTransaction⦄ ⦃m : RsMerkle sha256_algorithm_hash⦄
    {State : Type 0} ⦃t : RollupStateTrait State⦄ (rollup_contract : State) where
  -- What holds of a proof that a wallet accepts, and of the merged proof and the balance.
  pub record IsReceived (p : TransactionProof) (senders : BalanceProof) (w : Wallet)
      (merged : BalanceProof) (balance : ℕ) : Type 0 where
    pub addressed : any (λ tx. b.public_key_eq.beq tx.to w.public_key) p.batch.transactions ≡ true
    pub included : verify_proof p ≡ true
    pub in_senders : contains_key (key_of p) senders ≡ true
    pub holds_both :
        (q : BalanceProofKey)
        → lookup q merged
          ≡ elim (lookup q w.balance_proof) [ none ↦ lookup q senders | some own ↦ some own ]
    pub confirmed : All (IsConfirmed rollup_contract) (proofs_of merged)
    pub adds_up :
        IsBalance rollup_contract
          (wrap w.public_key)
          (received (wrap w.public_key) (proofs_of merged))
          (sent (wrap w.public_key) (proofs_of merged))
          balance

  receive_checked_inv :
      (p : TransactionProof) (senders : BalanceProof) (w : Wallet) {merged : BalanceProof}
      {balance : ℕ}
      → receive_checked rollup_contract p senders w ≡ ok (merged, balance)
      → IsReceived p senders w merged balance
  unfolding receive_checked merge_balance_proofs
  receive_checked_inv p senders w {merged} {balance} h =
      let addressed =
        not (any (λ tx. b.public_key_eq.beq tx.to w.public_key) p.batch.transactions) in
      let (_, h1, r1) = >>=-eq-ok (fail_if addressed (anyhow not_addressed_to_user)) _ h in
      let (_, h2, r2) =
        >>=-eq-ok (fail_if (not (verify_proof p)) (anyhow invalid_transaction)) _ r1 in
      let (_, h3, r3) =
        >>=-eq-ok (fail_if (not (contains_key (key_of p) senders)) (anyhow not_in_senders_proof)) _
          r2 in
      let merging = merge_into w.balance_proof senders in
      let (balances, calculated, r4) =
        >>=-eq-ok (calculate_balances_and_validate_balance_proof rollup_contract merging) _ r3 in
      let (n, found, r5) =
        >>=-eq-ok (ok_or (lookup (wrap w.public_key) balances) (anyhow balance_not_found)) _ r4 in
      let is_merged : merging ≡ merged = ground arith in
      let is_balance : n ≡ balance = ground arith in
      let at_own : lookup (wrap w.public_key) balances ≡ some n =
        ok_or-eq-ok (lookup (wrap w.public_key) balances) (anyhow balance_not_found) found in
      let adds_up : IsBalance rollup_contract (wrap w.public_key)
          (received (wrap w.public_key) (proofs_of merging))
          (sent (wrap w.public_key) (proofs_of merging)) n =
        IsBalance-found rollup_contract merging (wrap w.public_key) calculated at_own in
      record {
        addressed = ground (arith, h1);
        included = ground (arith, h2);
        in_senders = ground (arith, h3);
        holds_both = λ q. rw (← is_merged) (lookup-merge_into q w.balance_proof senders);
        confirmed =
            rw (← is_merged)
              (balances_lem rollup_contract merging (wrap w.public_key) calculated).0;
        adds_up = rw (← is_merged, ← is_balance) adds_up;
      }

  module _ ⦃c : SerdeWallet⦄ where
    -- A wallet takes in a proof only if one of its transactions is addressed to it, it verifies, and
    -- the sender's balance proof has an entry under its root and sender. Then the wallet holds its own
    -- entries and the sender's entries under other keys, every proof that it now holds is confirmed,
    -- and its balance is what it received and deposited less what it sent and withdrew, by those
    -- proofs. Its key and its batch stay.
    pub add_receiving_lem :
        (p : TransactionProof) (senders : BalanceProof) (w w' : Wallet) (files files' : Files)
        → add_receiving_transaction rollup_contract p senders w files ≡ (ok tt, (w', files'))
        → IsReceived p senders w w'.balance_proof w'.balance
          × (w'.public_key ≡ w.public_key)
          × (w'.transaction_batch ≡ w.transaction_batch)
          × (w'.batch_is_pending ≡ w.batch_is_pending)
    unfolding add_receiving_transaction
    add_receiving_lem p senders w w' files files' h =
        let (received, checked, rest) =
          on_ok_inv (receive_checked rollup_contract p senders w) (w, files) _ h in
        let (_, _, is_wallet) =
          save_then_inv tt (received_wallet received w) files {w' = w'} {files' = files'} rest in
        let accepted = receive_checked_inv p senders w checked in
        (rw is_wallet accepted, ground arith, ground arith, ground arith)
