-- ===== src/Wallet/Utils/Complete.antt =====
-- When `calculate_balances_and_validate_balance_proof` (src/wallet/utils.rs) succeeds.
use stateless_payments.Common.{ℕ, ◌+◌, ◌≤◌, ◌<◌, ◌≡◌, refl, true, some, [], ◌∷◌, All, arith}
use stateless_payments.Common.Assoc.{lookup, insert, IsMap}
use stateless_payments.Common.Int.{
  ℤ, pos, negsuc, pos_part, neg_part, ◌+ℤ◌, ◌-ℤ◌, ◌≤ℤ◌, +ℤ_parts, -ℤ_parts,
}
use stateless_payments.Common.Outcome.{ok}
use stateless_payments.Common.Words.{u64_mod, try_into_u64}
use stateless_payments.External.Bls.{Bls}
use stateless_payments.External.Sha2.{Sha256}
use stateless_payments.External.RsMerkle.{RsMerkle}
use stateless_payments.Types.PublicKey.{
  BlsPublicKeyWrapper, AccountTotals, unwrap, eq_iff, wrapper_Eq,
}
use stateless_payments.Types.Transaction.{SerdeTransaction, sha256_algorithm_hash}
use stateless_payments.Types.Balance.{BalanceProof}
use stateless_payments.Rollup.Traits.{
  RollupStateTrait, get_account_deposit_amount, get_account_withdraw_amount,
}
use stateless_payments.Wallet.Utils.{
  UncheckedBalances, checked_balance, checked_balances,
  calculate_balances_and_validate_balance_proof,
}
use stateless_payments.Wallet.Utils.Ledger.{
  sent, received, involved, all_amounts, all_amounts-Moved, all_amounts-involved, all_amounts-IsMap,
}
use stateless_payments.Wallet.Utils.Balances.{proofs_of, IsConfirmed, unchecked_total}

try_into_fits : (z : ℤ) → pos 0 ≤ℤ z → pos_part z < u64_mod → try_into_u64 z ≡ some (pos_part z)
try_into_fits (pos k) h f = ground arith
try_into_fits (negsuc k) h f = absurd (omega arith)

neg_part_zero : (z : ℤ) → pos 0 ≤ℤ z → neg_part z ≡ 0
neg_part_zero (pos k) h = refl
neg_part_zero (negsuc k) h = absurd (omega arith)

module _ ⦃b : Bls⦄ ⦃s : Sha256⦄ ⦃j : SerdeTransaction⦄ ⦃m : RsMerkle sha256_algorithm_hash⦄
    {State : Type 0} ⦃t : RollupStateTrait State⦄ (rollup_state : State) where
  -- The rollup answers for an account, and what comes in covers what goes out, within a `u64`.
  pub record IsCovered (q : BlsPublicKeyWrapper) (into out : ℕ) : Type 0 where
    pub deposit : ℕ
    pub withdraw : ℕ
    pub deposited : get_account_deposit_amount (unwrap q) rollup_state ≡ ok deposit
    pub withdrawn : get_account_withdraw_amount (unwrap q) rollup_state ≡ ok withdraw
    pub covers : out + withdraw ≤ into + deposit
    pub fits : into + deposit < u64_mod + out + withdraw

  checked_balance_total :
      (q : BlsPublicKeyWrapper) (amount : ℤ) (into out : ℕ)
      → pos_part amount + out ≡ neg_part amount + into
      → IsCovered q into out
      → (n : ℕ) × (checked_balance rollup_state q amount ≡ ok n)
  unfolding checked_balance
  checked_balance_total q amount into out e c =
      let d = c.deposit in
      let w = c.withdraw in
      let net = amount +ℤ pos d -ℤ pos w in
      let first = +ℤ_parts amount (pos d) in
      let second = -ℤ_parts (amount +ℤ pos d) (pos w) in
      let whole : pos 0 ≤ℤ net = omega (arith, first, second, c.covers) in
      let small : pos_part net < u64_mod =
        omega (arith, first, second, neg_part_zero net whole, c.fits) in
      (pos_part net, rw (c.deposited, c.withdrawn, try_into_fits net whole small))

  checked_total :
      (u : UncheckedBalances) (acc : AccountTotals)
      → IsMap u
      → ((q : BlsPublicKeyWrapper) (amount : ℤ)
          → lookup q u ≡ some amount
          → (n : ℕ) × (checked_balance rollup_state q amount ≡ ok n))
      → (out : AccountTotals) × (checked_balances rollup_state u acc ≡ ok out)
  unfolding checked_balances
  checked_total [] acc d h = (acc, refl)
  checked_total ((k, v) ∷ u) acc d h =
      let (n, here) = h k v (ground (arith, eq_iff k k)) in
      let (out, rest) =
        checked_total u (insert k n acc) d.1
          (λ q amount e. h q amount (ground (arith, eq_iff q k, d.0))) in
      (out, rw here rest)

  -- If every proof is confirmed, and for every account that a transaction names the contract tells
  -- what it deposited and withdrew, what is received and deposited covers what is sent and withdrawn,
  -- and the rest is below 2^64, then the balances are calculated.
  pub balances_total :
      (bp : BalanceProof)
      → All (IsConfirmed rollup_state) (proofs_of bp)
      → ((q : BlsPublicKeyWrapper)
          → involved q (proofs_of bp) ≡ true
          → IsCovered q (received q (proofs_of bp)) (sent q (proofs_of bp)))
      → (balances : AccountTotals) × (calculate_balances_and_validate_balance_proof rollup_state bp
          ≡ ok balances)
  unfolding calculate_balances_and_validate_balance_proof
  balances_total bp confirmed covered =
      let ps = proofs_of bp in
      let (out, done) =
        checked_total (all_amounts ps []) [] (all_amounts-IsMap ps [] tt) (λ q amount e.
          checked_balance_total q amount (received q ps) (sent q ps)
            (ground (arith, all_amounts-Moved q ps [], e))
            (covered q (ground (arith, all_amounts-involved q ps [], e)))) in
      (out, rw (unchecked_total rollup_state ps [] confirmed) done)
