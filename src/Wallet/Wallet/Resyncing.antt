-- ===== src/Wallet/Wallet/Resyncing.antt =====
-- A wallet that syncs while its batch is not sent (sync_rollup_state and
-- append_transaction_to_batch in src/wallet/wallet.rs).
use stateless_payments.Common.{ℕ, ◌+◌, ◌*◌, ◌-◌, ◌≤◌, ◌<◌, Bytes, ◌≡◌, ◌≢◌, refl, ap, false, arith}
use stateless_payments.Common.Words.{Profile}
use stateless_payments.Common.Outcome.{ok, on_ok_inv}
use stateless_payments.External.Bls.{Bls}
use stateless_payments.External.Sha2.{Sha256}
use stateless_payments.External.RsMerkle.{RsMerkle}
use stateless_payments.Types.PublicKey.{wrapper_Eq}
use stateless_payments.Types.Transaction.{SerdeTransaction, sha256_algorithm_hash}
use stateless_payments.Rollup.Traits.{RollupStateTrait}
use stateless_payments.Wallet.Persist.{Wallet}
use stateless_payments.Wallet.Wallet.{
  can_append, new_transaction, push_transaction, append_transaction_to_batch, synced_balance,
  sync_rollup_state,
}
use stateless_payments.Wallet.Wallet.Spending.{amounts, amounts-append}

module _ ⦃b : Bls⦄ where
  abbrev appended : b.PublicKey → ℕ → Bytes → Wallet → Wallet
  appended to amount salt w = record w {
    balance = w.balance - amount;
    transaction_batch = push_transaction (new_transaction to amount salt w) w.transaction_batch;
  }

  append_succeeds :
      (to : b.PublicKey) (amount : ℕ) (salt : Bytes) (w : Wallet)
      → w.batch_is_pending ≡ false
      → to ≢ w.public_key
      → 1 ≤ amount
      → amount ≤ w.balance
      → append_transaction_to_batch to amount salt w
        ≡ (ok (appended to amount salt w).transaction_batch, appended to amount salt w)
  unfolding append_transaction_to_batch can_append
  append_succeeds to amount salt w idle other positive enough =
      ground (arith, b.public_key_eq.beq_iff to w.public_key)

module _ ⦃b : Bls⦄ ⦃s : Sha256⦄ ⦃j : SerdeTransaction⦄ ⦃m : RsMerkle sha256_algorithm_hash⦄
    {State : Type 0} ⦃t : RollupStateTrait State⦄ (rollup : State) (profile : Profile) where
  -- What is appended and not sent is forgotten by a sync.
  sync_after_append :
      (to : b.PublicKey) (amount : ℕ) (salt : Bytes) (w : Wallet)
      → sync_rollup_state rollup profile w ≡ (ok tt, w)
      → sync_rollup_state rollup profile (appended to amount salt w)
        ≡ (ok tt, record (appended to amount salt w) { balance = w.balance })
  unfolding sync_rollup_state
  sync_after_append to amount salt w synced =
      let (n, found, left) = on_ok_inv (synced_balance rollup profile w) w _ synced in
      let kept : n ≡ w.balance = ap (λ x. x.1.balance) left in
      let same : synced_balance rollup profile (appended to amount salt w)
          ≡ synced_balance rollup profile w =
        unfold synced_balance in refl in
      rw (same, found, kept) refl

  -- A wallet that is in step with the contract and has no batch pending appends a payment to another
  -- key, of more than half its balance and at most all of it, then syncs, then appends as much again:
  -- neither append fails, and the batch spends more than its balance.
  pub resync_overspends :
      (to : b.PublicKey) (amount : ℕ) (salt salt' : Bytes) (w : Wallet)
      → sync_rollup_state rollup profile w ≡ (ok tt, w)
      → w.batch_is_pending ≡ false
      → to ≢ w.public_key
      → amount ≤ w.balance
      → w.balance < 2 * amount
      → let (first, w1) = append_transaction_to_batch to amount salt w in
        let (synced, w2) = sync_rollup_state rollup profile w1 in
        let (second, w3) = append_transaction_to_batch to amount salt' w2 in
        (first ≡ ok w1.transaction_batch)
        × (synced ≡ ok tt)
        × (second ≡ ok w3.transaction_batch)
        × (amounts w3.transaction_batch.transactions
            ≡ amounts w.transaction_batch.transactions + 2 * amount)
        × (w.balance < amounts w3.transaction_batch.transactions)
  resync_overspends to amount salt salt' w synced idle other enough much =
      let w1 = appended to amount salt w in
      let w2 = record w1 { balance = w.balance } in
      let first = append_succeeds to amount salt w idle other (omega arith) enough in
      let sync = sync_after_append to amount salt w synced in
      let second = append_succeeds to amount salt' w2 idle other (omega arith) enough in
      let one =
        amounts-append w.transaction_batch.transactions (new_transaction to amount salt w) in
      let two =
        amounts-append w1.transaction_batch.transactions (new_transaction to amount salt' w2) in
      rw (first, sync, second) (refl, refl, refl, omega (arith, one, two), omega (arith, one, two))
