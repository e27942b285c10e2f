-- ===== src/Wallet/Wallet/Syncing.antt =====
-- A wallet in step with the contract (sync_rollup_state in src/wallet/wallet.rs).
use stateless_payments.Common.{
  ℕ, ◌+◌, ◌-◌, bytes_Eq, ◌≡◌, ◌≤◌, sym, ◌∙◌, refl, inl, inr, false, List, [], ◌∷◌, arith,
  Option-cases,
}
use stateless_payments.Common.Assoc.{lookup}
use stateless_payments.Common.Outcome.{ok}
use stateless_payments.External.Bls.{Bls}
use stateless_payments.External.Sha2.{Sha256}
use stateless_payments.External.RsMerkle.{RsMerkle}
use stateless_payments.Types.PublicKey.{BlsPublicKeyWrapper, AccountTotals, wrap, wrapper_Eq}
use stateless_payments.Types.Transaction.{
  SimpleTransaction, TransactionProof, SerdeTransaction, sha256_algorithm_hash,
}
use stateless_payments.Types.Balance.{key_Eq}
use stateless_payments.Rollup.Traits.{
  RollupStateTrait, total_of, get_account_deposit_amount, get_account_withdraw_amount,
}
use stateless_payments.Wallet.Persist.{Wallet}
use stateless_payments.Wallet.Utils.{calculate_balances_and_validate_balance_proof}
use stateless_payments.Wallet.Utils.Ledger.{
  sent_in, received_in, involved_in, sent, received, involved,
}
use stateless_payments.Wallet.Utils.Balances.{proofs_of, IsBalance-found, balance_missing}
use stateless_payments.Common.Words.{Profile}
use stateless_payments.Rollup.Memory.{MockRollupMemory, memory_trait}
use stateless_payments.Rollup.Memory.Solvency.{IsSolvent}
use stateless_payments.Wallet.Wallet.{synced_balance, sync_rollup_state}

module _ ⦃b : Bls⦄ where
  uninvolved_in :
      (q : BlsPublicKeyWrapper) (from : b.PublicKey) (txs : List SimpleTransaction)
      → involved_in q from txs ≡ false
      → (sent_in q from txs ≡ 0) × (received_in q txs ≡ 0)
  uninvolved_in q from [] h = (refl, refl)
  uninvolved_in q from (tx ∷ txs) h = ground (arith, uninvolved_in q from txs)

  -- An account that no transaction names sends and receives nothing.
  uninvolved :
      (q : BlsPublicKeyWrapper) (ps : List TransactionProof)
      → involved q ps ≡ false
      → (sent q ps ≡ 0) × (received q ps ≡ 0)
  uninvolved q [] h = (refl, refl)
  uninvolved q (p ∷ ps) h =
      ground (arith, uninvolved_in q p.batch.from p.batch.transactions, uninvolved q ps)

module _ ⦃b : Bls⦄ ⦃s : Sha256⦄ ⦃j : SerdeTransaction⦄ ⦃m : RsMerkle sha256_algorithm_hash⦄ where
  -- The same at any contract that answers for the account, withdrawals within deposits.
  pub synced_at :
      {State : Type 0} ⦃t : RollupStateTrait State⦄ (profile : Profile) (rollup : State)
      (w : Wallet) {balances : AccountTotals} {deposit withdraw : ℕ}
      → get_account_deposit_amount w.public_key rollup ≡ ok deposit
      → get_account_withdraw_amount w.public_key rollup ≡ ok withdraw
      → withdraw ≤ deposit
      → calculate_balances_and_validate_balance_proof rollup w.balance_proof ≡ ok balances
      → let own = wrap w.public_key in
        let ps = proofs_of w.balance_proof in
        (n : ℕ) × (synced_balance rollup profile w ≡ ok n)
        × (n + sent own ps + withdraw ≡ received own ps + deposit)
  unfolding synced_balance
  synced_at profile rollup w {balances} {deposit} {withdraw} deposited withdrawn solvent h =
      let own = wrap w.public_key in
      let ps = proofs_of w.balance_proof in
      elim (Option-cases (lookup own balances)) [
        | inl missing ↦
            let idle = uninvolved own ps (balance_missing rollup w.balance_proof own h missing) in
            (
              deposit - withdraw,
              ground (arith, h, missing, deposited, withdrawn, solvent),
              omega (arith, solvent, idle.0, idle.1),
            )
        | inr (n, found) ↦
            let balance = IsBalance-found rollup w.balance_proof own h found in
            let same_deposit : balance.deposit ≡ deposit =
              let e = sym balance.deposited ∙ deposited in cc in
            let same_withdraw : balance.withdraw ≡ withdraw =
              let e = sym balance.withdrawn ∙ withdrawn in cc in
            (
              n,
              ground (arith, h, found),
              omega (arith, balance.adds_up, same_deposit, same_withdraw),
            )
      ]

  -- In every build, if the balance proof passes, syncing with a contract in memory that keeps
  -- withdrawals within deposits neither fails nor panics, and stores the balance that is received
  -- and deposited less sent and withdrawn, also for a wallet that no transaction names. Nothing
  -- else changes.
  pub sync_lem :
      (profile : Profile) (rollup : MockRollupMemory) (w : Wallet) {balances : AccountTotals}
      → IsSolvent rollup
      → calculate_balances_and_validate_balance_proof rollup w.balance_proof ≡ ok balances
      → let own = wrap w.public_key in
        let ps = proofs_of w.balance_proof in
        (n : ℕ) × (sync_rollup_state rollup profile w ≡ (ok tt, record w { balance = n }))
        × (n + sent own ps + total_of own rollup.withdraw_totals
            ≡ received own ps + total_of own rollup.deposit_totals)
  unfolding sync_rollup_state get_account_deposit_amount get_account_withdraw_amount
  sync_lem profile rollup w solvent h =
      let (n, found, adds_up) =
        synced_at profile rollup w refl refl (solvent (wrap w.public_key)) h in
      (n, rw found refl, adds_up)
