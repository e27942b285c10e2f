-- ===== src/Wallet/Utils/Range.antt =====
-- The i128 sums of src/wallet/utils.rs stay within their range.
use stateless_payments.Common.{
  ℕ, ◌+◌, ◌*◌, ◌^◌, ◌≤◌, ◌<◌, ◌≡◌, List, [], ◌∷◌, length, All, arith, ◌==◌, Bool-cases, inl, inr,
}
use stateless_payments.Common.Int.{ℤ, pos_part, neg_part}
use stateless_payments.Common.Words.{u64_mod}
use stateless_payments.Common.Outcome.{ok}
use stateless_payments.External.Bls.{Bls}
use stateless_payments.External.Sha2.{Sha256}
use stateless_payments.External.RsMerkle.{RsMerkle}
use stateless_payments.Types.PublicKey.{BlsPublicKeyWrapper, wrap, wrapper_Eq}
use stateless_payments.Types.Transaction.{
  SimpleTransaction, TransactionProof, SerdeTransaction, sha256_algorithm_hash,
}
use stateless_payments.Rollup.Traits.{RollupStateTrait}
use stateless_payments.Wallet.Utils.{UncheckedBalances, unchecked_balances_of}
use stateless_payments.Wallet.Utils.Ledger.{
  sent_in, received_in, sent, received, all_amounts, amount_at, all_amounts-Moved,
}
use stateless_payments.Wallet.Utils.Balances.{unchecked_inv}

module _ ⦃b : Bls⦄ where
  -- Every amount is a `u64`.
  abbrev pub AllSmall : List TransactionProof → Type 0
  AllSmall = All (λ p. All (λ tx. tx.amount < u64_mod) p.batch.transactions)

  -- The number of transactions.
  abbrev pub count : List TransactionProof → ℕ
  count [] = 0
  count (p ∷ ps) = length p.batch.transactions + count ps

  in_range :
      (q : BlsPublicKeyWrapper) (from : b.PublicKey) (txs : List SimpleTransaction)
      → All (λ tx. tx.amount < u64_mod) txs
      → (received_in q txs ≤ length txs * u64_mod) × (sent_in q from txs ≤ length txs * u64_mod)
  in_range q from [] h = (omega arith, omega arith)
  in_range q from (tx ∷ txs) h =
      let rest = in_range q from txs h.1 in
      (
        elim (Bool-cases (q == wrap tx.to)) [
          | inl e ↦ rw e (omega (arith, rest.0, h.0))
          | inr e ↦ rw e (omega (arith, rest.0))
        ],
        elim (Bool-cases (q == wrap from)) [
          | inl e ↦ rw e (omega (arith, rest.1, h.0))
          | inr e ↦ rw e (omega (arith, rest.1))
        ],
      )

  all_in_range :
      (q : BlsPublicKeyWrapper) (ps : List TransactionProof)
      → AllSmall ps
      → (received q ps ≤ count ps * u64_mod) × (sent q ps ≤ count ps * u64_mod)
  all_in_range q [] h = (omega arith, omega arith)
  all_in_range q (p ∷ ps) h =
      let first = in_range q p.batch.from p.batch.transactions h.0 in
      let rest = all_in_range q ps h.1 in
      (omega (arith, first.0, rest.0), omega (arith, first.1, rest.1))

  part_bounds :
      (v : ℤ) (into out bound : ℕ)
      → pos_part v + out ≡ neg_part v + into
      → into ≤ bound
      → out ≤ bound
      → (pos_part v ≤ bound) × (neg_part v ≤ bound)
  part_bounds v into out bound e i o = ground arith

module _ ⦃b : Bls⦄ ⦃s : Sha256⦄ ⦃j : SerdeTransaction⦄ ⦃m : RsMerkle sha256_algorithm_hash⦄
    {State : Type 0} ⦃t : RollupStateTrait State⦄ (rollup_state : State) where
  -- After any list of proofs with fewer than 2^62 transactions, each of a `u64`, every account's
  -- amount, with a deposit or a withdrawal of a `u64`, is within an i128.
  pub amounts_in_range :
      (ps : List TransactionProof) (q : BlsPublicKeyWrapper) (total : ℕ) {u : UncheckedBalances}
      → AllSmall ps
      → count ps < 2 ^ 62
      → unchecked_balances_of rollup_state ps [] ≡ ok u
      → total < u64_mod
      → (pos_part (amount_at q u) + total < 2 ^ 127) × (neg_part (amount_at q u) + total < 2 ^ 127)
  amounts_in_range ps q total small few made fits =
      let (r, o) = all_in_range q ps small in
      let bounds =
        part_bounds (amount_at q (all_amounts ps [])) (received q ps) (sent q ps)
          (count ps * u64_mod) (omega (arith, all_amounts-Moved q ps [])) r o in
      rw ((unchecked_inv rollup_state ps [] made).0)
        (omega (arith, bounds.0, few, fits), omega (arith, bounds.1, few, fits))
