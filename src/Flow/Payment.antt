-- ===== src/Flow/Payment.antt =====
-- A payment from the sender's signature to the receiver's balance (src/aggregator.rs, src/rollup and
-- src/wallet).
use stateless_payments.Common.{
  ℕ, ◌+◌, ◌≤◌, ◌<◌, ◌≡◌, refl, sym, subst, ◌⊎◌, inl, inr, true, none, some, List, map, any, find,
  All, All-mono, ◌==◌, arith, Option-cases,
}
use stateless_payments.Common.Assoc.{lookup}
use stateless_payments.Common.Words.{u64_mod}
use stateless_payments.Common.Outcome.{ok}
use stateless_payments.External.Bls.{Bls}
use stateless_payments.External.Sha2.{Sha256}
use stateless_payments.External.RsMerkle.{RsMerkle}
use stateless_payments.External.IndexMap.{IndexMap}
use stateless_payments.Types.PublicKey.{BlsPublicKeyWrapper, wrap, wrapper_Eq}
use stateless_payments.Types.Transaction.{
  TransactionProof, SerdeTransaction, sha256_algorithm_hash, verify_proof,
}
use stateless_payments.Types.TransferBlock.{TransferBlock}
use stateless_payments.Types.Balance.{BalanceProof, key_Eq}
use stateless_payments.Aggregator.{
  TxMetadata, collect_signatures, finalised, Aggregator, root, finalise,
}
use stateless_payments.Aggregator.Invariant.{IsValid, entries_of}
use stateless_payments.Aggregator.Finalise.{signers}
use stateless_payments.Rollup.Traits.{
  is_block_for, total_of, get_account_deposit_amount, get_account_withdraw_amount,
  get_transfer_block_for_merkle_root_and_pubkey,
}
use stateless_payments.Rollup.Memory.{MockRollupMemory, add_transfer_block, memory_trait}
use stateless_payments.Rollup.Memory.Blocks.{found_after_add}
use stateless_payments.Wallet.Persist.{Wallet, Files, SerdeWallet}
use stateless_payments.Wallet.Persist.RoundTrip.{IsHealthy}
use stateless_payments.Wallet.Utils.{merge_into, check_proof}
use stateless_payments.Wallet.Utils.Ledger.{sent, received, involved}
use stateless_payments.Wallet.Utils.Balances.{proofs_of, IsConfirmed}
use stateless_payments.Wallet.Utils.Complete.{IsCovered}
use stateless_payments.Wallet.Wallet.{key_of, add_receiving_transaction}
use stateless_payments.Wallet.Wallet.Accepting.{accepts}
use stateless_payments.Flow.Confirm.{IsSigned, finalised_confirms}

module _ ⦃b : Bls⦄ ⦃s : Sha256⦄ ⦃j : SerdeTransaction⦄ ⦃m : RsMerkle sha256_algorithm_hash⦄ where
  -- A proof that is confirmed stays confirmed, whatever block is added.
  IsConfirmed-stays :
      (rollup : MockRollupMemory) (block : TransferBlock) (p : TransactionProof)
      → IsConfirmed rollup p
      → IsConfirmed (add_transfer_block block rollup).1 p
  unfolding check_proof get_transfer_block_for_merkle_root_and_pubkey
  IsConfirmed-stays rollup block p h =
      elim (Option-cases (find (is_block_for p.root p.batch.from) rollup.transfer_blocks)) [
        | inl missing ↦ absurd (ground (arith, missing))
        | inr (earlier, found) ↦
            let still =
              found_after_add p.root p.batch.from rollup block (some earlier) (rw found refl) in
            ground (arith, still)
      ]

  -- What comes in covers what goes out, by the totals of a contract, and the rest is a `u64`.
  pub record IsSpendable (rollup : MockRollupMemory) (ps : List TransactionProof)
      (q : BlsPublicKeyWrapper) : Type 0 where
    pub covers :
        sent q ps + total_of q rollup.withdraw_totals
        ≤ received q ps + total_of q rollup.deposit_totals
    pub fits :
        received q ps + total_of q rollup.deposit_totals
        < u64_mod + sent q ps + total_of q rollup.withdraw_totals

  spendable-IsCovered :
      (rollup : MockRollupMemory) (block : TransferBlock) (ps : List TransactionProof)
      (q : BlsPublicKeyWrapper)
      → IsSpendable rollup ps q
      → IsCovered (add_transfer_block block rollup).1 q (received q ps) (sent q ps)
  unfolding get_account_deposit_amount get_account_withdraw_amount
  spendable-IsCovered rollup block ps q x = record {
    deposit = total_of q rollup.deposit_totals;
    withdraw = total_of q rollup.withdraw_totals;
    deposited = refl;
    withdrawn = refl;
    covers = x.covers;
    fits = x.fits;
  }

  module _ ⦃im : IndexMap BlsPublicKeyWrapper TxMetadata⦄ ⦃c : SerdeWallet⦄ where
    -- The aggregator of a valid round collects signatures, all of the wallets' scheme, the sender's
    -- among them. A proof verifies under the round's root, has a transaction to the receiver, stands
    -- under its key in the sender's balance proof, and the receiver has no proof under that key. The
    -- contract's blocks verify; every proof of the receiver, and of the sender but for the new one, is
    -- confirmed there; and for every account that the merged balance proof names, what is received and
    -- deposited covers what is sent and withdrawn, and the rest is below 2^64. Then finalising and
    -- posting the block lets the receiver, if its files can be written, accept the payment, and its
    -- balance is what it received and deposited less what it sent and withdrew.
    pub payment_accepted :
        (a : Aggregator) (rollup : MockRollupMemory) (p : TransactionProof) (senders : BalanceProof)
        (w : Wallet) (files : Files)
        → IsValid a
        → a.state ≡ collect_signatures
        → All b.IsAugmented (map (λ x. x.1) (signers (entries_of a)))
        → IsSigned rollup
        → verify_proof p ≡ true
        → root a ≡ ok p.root
        → any (λ v. wrap v.0 == wrap p.batch.from) (signers (entries_of a)) ≡ true
        → any (λ tx. b.public_key_eq.beq tx.to w.public_key) p.batch.transactions ≡ true
        → lookup (key_of p) senders ≡ some p
        → lookup (key_of p) w.balance_proof ≡ none
        → All (IsConfirmed rollup) (proofs_of w.balance_proof)
        → All (λ x. IsConfirmed rollup x ⊎ (x ≡ p)) (proofs_of senders)
        → IsHealthy files
        → let ps = proofs_of (merge_into w.balance_proof senders) in
          let me = wrap w.public_key in
          ((q : BlsPublicKeyWrapper) → involved q ps ≡ true → IsSpendable rollup ps q)
          → (block : TransferBlock) × (n : ℕ) × (files' : Files) × (finalise a
              ≡ (ok block, record a { state = finalised block }))
            × (add_receiving_transaction (add_transfer_block block rollup).1 p senders w files ≡ (
              ok tt,
              (
                record w { balance = n; balance_proof = merge_into w.balance_proof senders },
                files',
              ),
            ))
            × (n + sent me ps + total_of me rollup.withdraw_totals
                ≡ received me ps + total_of me rollup.deposit_totals)
    unfolding get_account_deposit_amount get_account_withdraw_amount
    payment_accepted a rollup p senders w files v collecting augmented signed included at_root
          signer addressed in_senders is_new own theirs healthy spendable =
        let ps = proofs_of (merge_into w.balance_proof senders) in
        let (block, done, confirmed, _) =
          finalised_confirms a rollup p v collecting augmented signed included at_root signer in
        let after = (add_transfer_block block rollup).1 in
        let still : (x : TransactionProof) → IsConfirmed rollup x → IsConfirmed after x =
          IsConfirmed-stays rollup block in
        let all_theirs : All (IsConfirmed after) (proofs_of senders) =
          All-mono (proofs_of senders)
            (λ x h. elim h [
              | inl old ↦ still x old
              | inr is_p ↦ subst (IsConfirmed after) (sym is_p) confirmed
            ])
            theirs in
        let (n, files', accepted, balance) =
          accepts after p senders w files healthy addressed included in_senders is_new
            (All-mono (proofs_of w.balance_proof) still own) all_theirs
            (λ q named. spendable-IsCovered rollup block ps q (spendable q named)) in
        (
          block,
          n,
          files',
          done,
          accepted,
          ground (arith, balance.adds_up, balance.deposited, balance.withdrawn),
        )
