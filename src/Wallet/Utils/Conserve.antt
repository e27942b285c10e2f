-- ===== src/Wallet/Utils/Conserve.antt =====
-- No money is made or lost by `calculate_balances_and_validate_balance_proof` (src/wallet/utils.rs).
use stateless_payments.Common.{
  ℕ, ◌+◌, ◌≡◌, refl, ap, ◌∙◌, none, List, [], ◌∷◌, All, arith, ◌==◌, Bool-cases, inl, inr,
}
use stateless_payments.Common.Assoc.{lookup, insert, lookup-insert, IsMap, upsert}
use stateless_payments.Common.Int.{ℤ, pos, pos_part, neg_part, ◌+ℤ◌, ◌-ℤ◌, +ℤ_parts, int_laws}
use stateless_payments.Common.Outcome.{ok, err, panic, >>=-eq-ok}
use stateless_payments.External.Bls.{Bls}
use stateless_payments.External.Sha2.{Sha256}
use stateless_payments.External.RsMerkle.{RsMerkle}
use stateless_payments.Types.PublicKey.{
  BlsPublicKeyWrapper, AccountTotals, wrap, unwrap, eq_iff, wrapper_Eq,
}
use stateless_payments.Types.Transaction.{
  SimpleTransaction, TransactionProof, SerdeTransaction, sha256_algorithm_hash,
}
use stateless_payments.Types.Errors.{CrateResult}
use stateless_payments.Types.Balance.{BalanceProof}
use stateless_payments.Rollup.Traits.{
  RollupStateTrait, get_account_deposit_amount, get_account_withdraw_amount,
}
use stateless_payments.Wallet.Utils.{
  UncheckedBalances, debit, credit, move_amounts, unchecked_balances_of, checked_balance,
  checked_balances, calculate_balances_and_validate_balance_proof,
}
use stateless_payments.Wallet.Utils.Ledger.{all_amounts, sum_of, all_amounts-IsMap}
use stateless_payments.Wallet.Utils.Balances.{proofs_of, checked_balance_inv, unchecked_inv}

module _ ⦃b : Bls⦄ where
  sum-upsert :
      (k : BlsPublicKeyWrapper) (f : ℤ → ℤ) (d : ℤ) (u : UncheckedBalances)
      → ((e : ℤ) → f e ≡ e +ℤ d)
      → sum_of (upsert k f d u) ≡ sum_of u +ℤ d
  sum-upsert k f d [] h = omega int_laws
  sum-upsert k f d ((i, w) ∷ u) h = elim (Bool-cases (k == i)) [
    | inl here ↦ rw (here, h w) (omega int_laws)
    | inr there ↦ rw (there, sum-upsert k f d u h) (omega int_laws)
  ]

  minus_is_plus : (n : ℕ) (e : ℤ) → e -ℤ pos n ≡ e +ℤ (pos 0 -ℤ pos n)
  minus_is_plus n e = omega int_laws

  -- What one account is debited another is credited.
  sum-move_amounts :
      (from : b.PublicKey) (txs : List SimpleTransaction) (u : UncheckedBalances)
      → sum_of (move_amounts from txs u) ≡ sum_of u
  unfolding move_amounts
  sum-move_amounts from [] u = refl
  sum-move_amounts from (tx ∷ txs) u =
      let n = tx.amount in
      let mid = debit (wrap from) n u in
      let taken = sum-upsert (wrap from) (λ e. e -ℤ pos n) (pos 0 -ℤ pos n) u (minus_is_plus n) in
      let given = sum-upsert (wrap tx.to) (λ e. e +ℤ pos n) (pos n) mid (λ e. refl) in
      sum-move_amounts from txs (credit (wrap tx.to) n mid) ∙ given ∙ rw taken (omega int_laws)

  sum-all_amounts :
      (ps : List TransactionProof) (u : UncheckedBalances) → sum_of (all_amounts ps u) ≡ sum_of u
  sum-all_amounts [] u = refl
  sum-all_amounts (p ∷ ps) u =
      sum-all_amounts ps (move_amounts p.batch.from p.batch.transactions u)
      ∙ sum-move_amounts p.batch.from p.batch.transactions u

  abbrev pub sum_totals : AccountTotals → ℕ
  sum_totals [] = 0
  sum_totals ((k, n) ∷ totals) = n + sum_totals totals

  abbrev pub value_or_zero : CrateResult ℕ → ℕ
  value_or_zero (ok n) = n
  value_or_zero (err e) = 0
  value_or_zero panic = 0

  -- The sum of `amount` over the keys of a map.
  abbrev pub sum_over : (BlsPublicKeyWrapper → ℕ) → AccountTotals → ℕ
  sum_over amount [] = 0
  sum_over amount ((k, n) ∷ totals) = amount k + sum_over amount totals

  sums-insert :
      (amount : BlsPublicKeyWrapper → ℕ) (k : BlsPublicKeyWrapper) (n : ℕ) (totals : AccountTotals)
      → lookup k totals ≡ none
      → (sum_totals (insert k n totals) ≡ sum_totals totals + n)
        × (sum_over amount (insert k n totals) ≡ sum_over amount totals + amount k)
  sums-insert amount k n [] h = (omega arith, omega arith)
  sums-insert amount k n ((i, w) ∷ totals) h = elim (Bool-cases (k == i)) [
    | inl here ↦ ground arith
    | inr there ↦
        let rest = sums-insert amount k n totals (ground arith) in
        rw there (omega (arith, rest.0), omega (arith, rest.1))
  ]

  -- None of the keys of `u` is one of `acc`.
  abbrev IsApart : UncheckedBalances → AccountTotals → Type 0
  IsApart u acc = All (λ kv. lookup kv.0 acc ≡ none) u

  IsApart-insert :
      (k : BlsPublicKeyWrapper) (n : ℕ) (u : UncheckedBalances) (acc : AccountTotals)
      → lookup k u ≡ none
      → IsApart u acc
      → IsApart u (insert k n acc)
  IsApart-insert k n [] acc h a = tt
  IsApart-insert k n ((i, v) ∷ u) acc h a =
      ground (arith, eq_iff k i, eq_iff i k, lookup-insert k i n acc, IsApart-insert k n u acc)

module _ ⦃b : Bls⦄ ⦃s : Sha256⦄ ⦃j : SerdeTransaction⦄ ⦃m : RsMerkle sha256_algorithm_hash⦄
    {State : Type 0} ⦃t : RollupStateTrait State⦄ (rollup_state : State) where
  -- What an account deposited and withdrew, by the rollup.
  abbrev pub deposit_of : BlsPublicKeyWrapper → ℕ
  deposit_of k = value_or_zero (get_account_deposit_amount (unwrap k) rollup_state)

  abbrev pub withdraw_of : BlsPublicKeyWrapper → ℕ
  withdraw_of k = value_or_zero (get_account_withdraw_amount (unwrap k) rollup_state)

  checked_sums :
      (u : UncheckedBalances) (acc : AccountTotals) {out : AccountTotals} (plus minus : ℕ)
      → IsMap u
      → IsApart u acc
      → checked_balances rollup_state u acc ≡ ok out
      → sum_totals acc + sum_over withdraw_of acc + minus ≡ sum_over deposit_of acc + plus
      → sum_totals out + sum_over withdraw_of out + minus + neg_part (sum_of u)
        ≡ sum_over deposit_of out + plus + pos_part (sum_of u)
  unfolding checked_balances
  checked_sums [] acc plus minus d a h e = ground arith
  checked_sums ((k, v) ∷ u) acc {out} plus minus d a h e =
      let (n, here, rest) = >>=-eq-ok (checked_balance rollup_state k v) _ h in
      let balance = checked_balance_inv rollup_state k v here in
      let deposits = sums-insert deposit_of k n acc a.0 in
      let withdraws = sums-insert withdraw_of k n acc a.0 in
      let dep : deposit_of k ≡ balance.deposit = ap value_or_zero balance.deposited in
      let wd : withdraw_of k ≡ balance.withdraw = ap value_or_zero balance.withdrawn in
      let later =
        checked_sums u (insert k n acc) {out = out} (plus + pos_part v) (minus + neg_part v) d.1
          (IsApart-insert k n u acc d.0 a.1) rest
          (omega (arith, deposits.0, deposits.1, withdraws.1, dep, wd, balance.adds_up)) in
      omega (arith, later, +ℤ_parts v (sum_of u))

  -- The balances that are calculated, with what those accounts withdrew, are together what they
  -- deposited.
  pub balances_conserve :
      (bp : BalanceProof) {balances : AccountTotals}
      → calculate_balances_and_validate_balance_proof rollup_state bp ≡ ok balances
      → sum_totals balances + sum_over withdraw_of balances ≡ sum_over deposit_of balances
  unfolding calculate_balances_and_validate_balance_proof
  balances_conserve bp {balances} h =
      let ps = proofs_of bp in
      let (u, first, rest) = >>=-eq-ok (unchecked_balances_of rollup_state ps []) _ h in
      let done : checked_balances rollup_state (all_amounts ps []) [] ≡ ok balances =
        rw ((unchecked_inv rollup_state ps [] first).0) at rest in
      let sums =
        checked_sums (all_amounts ps []) [] {out = balances} 0 0 (all_amounts-IsMap ps [] tt)
          (apart (all_amounts ps [])) done (omega arith) in
      let nothing = sum-all_amounts ps [] in
      omega (arith, sums, ap pos_part nothing, ap neg_part nothing)
    where
      apart : (u : UncheckedBalances) → IsApart u []
      apart [] = tt
      apart (x ∷ u) = (refl, apart u)
