-- ===== src/Wallet/Wallet/Accepting.antt =====
-- When a wallet accepts a payment (add_receiving_transaction in src/wallet/wallet.rs).
use stateless_payments.Common.{
  ℕ, ◌≡◌, refl, inl, inr, true, none, some, List, [], ◌∷◌, any, All, ◌==◌, arith, Bool-cases,
  Option-cases,
}
use stateless_payments.Common.Assoc.{lookup, contains_key, insert}
use stateless_payments.Common.Outcome.{ok}
use stateless_payments.External.Bls.{Bls}
use stateless_payments.External.Sha2.{Sha256}
use stateless_payments.External.RsMerkle.{RsMerkle}
use stateless_payments.Types.PublicKey.{BlsPublicKeyWrapper, wrap, eq_iff, wrapper_Eq}
use stateless_payments.Types.Transaction.{
  SimpleTransaction, TransactionProof, SerdeTransaction, sha256_algorithm_hash, verify_proof,
}
use stateless_payments.Types.Balance.{BalanceProofKey, BalanceProof, key_Eq}
use stateless_payments.Rollup.Traits.{RollupStateTrait}
use stateless_payments.Wallet.Persist.{
  Wallet, Files, SerdeWallet, save_wallet_state, get_wallet_path, write_file,
}
use stateless_payments.Wallet.Persist.RoundTrip.{IsHealthy, saved_lem}
use stateless_payments.Wallet.Utils.{merge_balance_proofs, merge_into}
use stateless_payments.Wallet.Utils.Merge.{lookup-merge_into}
use stateless_payments.Wallet.Utils.Ledger.{sent, received, involved_in, involved}
use stateless_payments.Wallet.Utils.Balances.{proofs_of, IsConfirmed, IsBalance, balances_lem}
use stateless_payments.Wallet.Utils.Complete.{IsCovered, balances_total}
use stateless_payments.Wallet.Wallet.{
  key_of, receive_checked, received_wallet, add_receiving_transaction,
}

-- What holds of the proofs of two balance proofs holds of those of the merged one.
module _ ⦃b : Bls⦄ where
  pub insert-All :
      (P : TransactionProof → Type 0) (k : BalanceProofKey) (p : TransactionProof)
      (bp : BalanceProof)
      → P p
      → All P (proofs_of bp)
      → All P (proofs_of (insert k p bp))
  insert-All P k p [] h a = (h, tt)
  insert-All P k p ((i, x) ∷ bp) h a = elim (Bool-cases (k == i)) [
    | inl here ↦ rw here (h, a.1)
    | inr there ↦ rw there (a.0, insert-All P k p bp h a.1)
  ]

  merge_into-All :
      (P : TransactionProof → Type 0) (current sender : BalanceProof)
      → All P (proofs_of current)
      → All P (proofs_of sender)
      → All P (proofs_of (merge_into current sender))
  unfolding merge_into
  merge_into-All P current [] h a = h
  merge_into-All P current ((k, p) ∷ sender) h a = elim (Bool-cases (contains_key k current)) [
    | inl old ↦ rw old (merge_into-All P current sender h a.1)
    | inr new ↦
        rw new (merge_into-All P (insert k p current) sender (insert-All P k p current a.0 h) a.1)
  ]

  addressed-involved_in :
      (pk from : b.PublicKey) (txs : List SimpleTransaction)
      → any (λ tx. b.public_key_eq.beq tx.to pk) txs ≡ true
      → involved_in (wrap pk) from txs ≡ true
  addressed-involved_in pk from [] h = cc
  addressed-involved_in pk from (tx ∷ txs) h = ground (
    arith,
    b.public_key_eq.beq_iff tx.to pk,
    eq_iff (wrap pk) (wrap tx.to),
    addressed-involved_in pk from txs,
  )

  found-involved :
      (q : BlsPublicKeyWrapper) (k : BalanceProofKey) (bp : BalanceProof) {p : TransactionProof}
      → lookup k bp ≡ some p
      → involved_in q p.batch.from p.batch.transactions ≡ true
      → involved q (proofs_of bp) ≡ true
  found-involved q k [] e h = absurd (cc)
  found-involved q k ((i, x) ∷ bp) {p} e h = elim (Bool-cases (k == i)) [
    | inl here ↦ ground arith
    | inr there ↦ let rest = found-involved q k bp {p = p} (ground arith) h in ground arith
  ]

  pub save_succeeds :
      ⦃c : SerdeWallet⦄ (w : Wallet) (files : Files)
      → IsHealthy files
      → (files' : Files) × (save_wallet_state w files ≡ (ok tt, files'))
  unfolding save_wallet_state get_wallet_path write_file
  save_succeeds w files h = elim (Option-cases w.wallet_name) [
    | inl unnamed ↦ (files, ground arith)
    | inr (name, named) ↦ (_, saved_lem w name files h named)
  ]

module _ ⦃b : Bls⦄ ⦃s : Sha256⦄ ⦃j : SerdeTransaction⦄ ⦃m : RsMerkle sha256_algorithm_hash⦄
    ⦃c : SerdeWallet⦄ {State : Type 0} ⦃t : RollupStateTrait State⦄ (rollup_contract : State) where
  -- If the files can be written, a proof that verifies, is addressed to a wallet and stands in the
  -- sender's balance proof is accepted, provided that every proof of both balance proofs is
  -- confirmed and in the merged one every account is covered. The wallet then holds the merged proof
  -- and the balance that follows from it.
  pub accepts :
      (p : TransactionProof) (senders : BalanceProof) (w : Wallet) (files : Files)
      → IsHealthy files
      → any (λ tx. b.public_key_eq.beq tx.to w.public_key) p.batch.transactions ≡ true
      → verify_proof p ≡ true
      → lookup (key_of p) senders ≡ some p
      → lookup (key_of p) w.balance_proof ≡ none
      → All (IsConfirmed rollup_contract) (proofs_of w.balance_proof)
      → All (IsConfirmed rollup_contract) (proofs_of senders)
      → let merged = merge_into w.balance_proof senders in
        let ps = proofs_of merged in
        ((q : BlsPublicKeyWrapper)
          → involved q ps ≡ true
          → IsCovered rollup_contract q (received q ps) (sent q ps))
        → (n : ℕ) × (files' : Files) × (add_receiving_transaction rollup_contract p senders w files
            ≡ (ok tt, (record w { balance = n; balance_proof = merged }, files')))
          × IsBalance rollup_contract
              (wrap w.public_key)
              (received (wrap w.public_key) ps)
              (sent (wrap w.public_key) ps)
              n
  unfolding add_receiving_transaction receive_checked merge_balance_proofs
  accepts p senders w files healthy addressed included in_senders is_new own theirs covered =
      let merged = merge_into w.balance_proof senders in
      let ps = proofs_of merged in
      let me = wrap w.public_key in
      let (balances, calculated) =
        balances_total rollup_contract merged
          (merge_into-All (IsConfirmed rollup_contract) w.balance_proof senders own theirs)
          covered in
      let held : lookup (key_of p) merged ≡ some p =
        ground (arith, lookup-merge_into (key_of p) w.balance_proof senders) in
      let named : involved me ps ≡ true =
        found-involved me (key_of p) merged {p = p} held
          (addressed-involved_in w.public_key p.batch.from p.batch.transactions addressed) in
      elim (balances_lem rollup_contract merged me calculated).1 [
        | inl (_, unnamed) ↦ absurd (cc)
        | inr (n, found, _, balance) ↦
            let (files', saved) = save_succeeds (received_wallet (merged, n) w) files healthy in
            let has : contains_key (key_of p) senders ≡ true = ground (arith, in_senders) in
            (n, files', rw (addressed, included, has, calculated, found, saved) refl, balance)
      ]
