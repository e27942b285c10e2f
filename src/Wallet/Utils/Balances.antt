-- ===== src/Wallet/Utils/Balances.antt =====
-- What `calculate_balances_and_validate_balance_proof` (src/wallet/utils.rs) answers.
use stateless_payments.Common.{
  ℕ, ◌+◌, ◌<◌, ◌≡◌, refl, sym, subst, true, false, Option, none, some, List, [], ◌∷◌, map, All,
  arith, ◌==◌, is_some, ◌⊎◌, Bool-cases, inl, inr,
}
use stateless_payments.Common.Assoc.{lookup, insert, lookup-insert, IsMap}
use stateless_payments.Common.Int.{
  ℤ, pos, negsuc, pos_part, neg_part, ◌+ℤ◌, ◌-ℤ◌, +ℤ_parts, -ℤ_parts,
}
use stateless_payments.Common.Outcome.{ok, >>=-eq-ok, ok_or-eq-ok}
use stateless_payments.Common.Words.{u64_mod, try_into_u64}
use stateless_payments.External.Bls.{Bls}
use stateless_payments.External.Sha2.{Sha256}
use stateless_payments.External.RsMerkle.{RsMerkle}
use stateless_payments.Types.PublicKey.{
  BlsPublicKeyWrapper, AccountTotals, unwrap, eq_iff, wrapper_Eq,
}
use stateless_payments.Types.Transaction.{TransactionProof, SerdeTransaction, sha256_algorithm_hash}
use stateless_payments.Types.Errors.{anyhow, balance_is_negative}
use stateless_payments.Types.Balance.{BalanceProof}
use stateless_payments.Rollup.Traits.{
  RollupStateTrait, get_account_deposit_amount, get_account_withdraw_amount,
}
use stateless_payments.Wallet.Utils.{
  UncheckedBalances, check_proof, unchecked_balances_of, checked_balance, checked_balances,
  calculate_balances_and_validate_balance_proof,
}
use stateless_payments.Wallet.Utils.Ledger.{
  sent, received, involved, all_amounts, all_amounts-Moved, all_amounts-involved, all_amounts-IsMap,
}

abbrev pub proofs_of : ⦃b : Bls⦄ → BalanceProof → List TransactionProof
proofs_of = map (λ kv. kv.1)

try_into_parts : (z : ℤ) {n : ℕ} → try_into_u64 z ≡ some n → (z ≡ pos n) × (n < u64_mod)
try_into_parts (pos k) h = ground arith
try_into_parts (negsuc k) h = ground arith

module _ ⦃b : Bls⦄ ⦃s : Sha256⦄ ⦃j : SerdeTransaction⦄ ⦃m : RsMerkle sha256_algorithm_hash⦄
    {State : Type 0} ⦃t : RollupStateTrait State⦄ (rollup_state : State) where
  -- The loop's checks of a proof pass.
  abbrev pub IsConfirmed : TransactionProof → Type 0
  IsConfirmed p = check_proof rollup_state p ≡ ok tt

  pub unchecked_inv :
      (ps : List TransactionProof) (u : UncheckedBalances) {w : UncheckedBalances}
      → unchecked_balances_of rollup_state ps u ≡ ok w
      → (w ≡ all_amounts ps u) × All IsConfirmed ps
  unfolding unchecked_balances_of
  unchecked_inv [] u h = (ground arith, tt)
  unchecked_inv (p ∷ ps) u h =
      let (_, confirmed, rest) = >>=-eq-ok (check_proof rollup_state p) _ h in
      let (w, others) = unchecked_inv ps _ rest in (w, (confirmed, others))

  pub unchecked_total :
      (ps : List TransactionProof) (u : UncheckedBalances)
      → All IsConfirmed ps
      → unchecked_balances_of rollup_state ps u ≡ ok (all_amounts ps u)
  unfolding unchecked_balances_of
  unchecked_total [] u h = refl
  unchecked_total (p ∷ ps) u h = rw h.0 (unchecked_total ps _ h.1)

  -- A balance that is what came in, with the deposits, less what went out, with the withdrawals.
  pub record IsBalance (q : BlsPublicKeyWrapper) (into out n : ℕ) : Type 0 where
    pub deposit : ℕ
    pub withdraw : ℕ
    pub deposited : get_account_deposit_amount (unwrap q) rollup_state ≡ ok deposit
    pub withdrawn : get_account_withdraw_amount (unwrap q) rollup_state ≡ ok withdraw
    pub adds_up : n + out + withdraw ≡ into + deposit
    pub fits : n < u64_mod

  pub checked_balance_inv :
      (q : BlsPublicKeyWrapper) (amount : ℤ) {n : ℕ}
      → checked_balance rollup_state q amount ≡ ok n
      → IsBalance q (pos_part amount) (neg_part amount) n
  unfolding checked_balance
  checked_balance_inv q amount {n} h =
      let (d, deposited, h') = >>=-eq-ok (get_account_deposit_amount (unwrap q) rollup_state) _ h in
      let (w, withdrawn, h'') =
        >>=-eq-ok (get_account_withdraw_amount (unwrap q) rollup_state) _ h' in
      let (net, fits) =
        try_into_parts (amount +ℤ pos d -ℤ pos w) {n = n} (
          ok_or-eq-ok (try_into_u64 (amount +ℤ pos d -ℤ pos w)) (anyhow balance_is_negative) h'') in
      record {
        deposit = d;
        withdraw = w;
        deposited = deposited;
        withdrawn = withdrawn;
        adds_up = ground (arith, +ℤ_parts amount (pos d), -ℤ_parts (amount +ℤ pos d) (pos w), net);
        fits = fits;
      }

  checked_absent :
      (q : BlsPublicKeyWrapper) (u : UncheckedBalances) (acc : AccountTotals) {out : AccountTotals}
      → checked_balances rollup_state u acc ≡ ok out
      → lookup q u ≡ none
      → lookup q out ≡ lookup q acc
  unfolding checked_balances
  checked_absent q [] acc h e = ground arith
  checked_absent q ((k, v) ∷ u) acc {out} h e =
      let (n, _, rest) = >>=-eq-ok (checked_balance rollup_state k v) _ h in
      let later = checked_absent q u (insert k n acc) rest (ground (arith, eq_iff q k)) in
      ground (arith, eq_iff q k, lookup-insert k q n acc, later)

  checked_present :
      (q : BlsPublicKeyWrapper) (u : UncheckedBalances) (acc : AccountTotals) {out : AccountTotals}
      {amount : ℤ}
      → IsMap u
      → checked_balances rollup_state u acc ≡ ok out
      → lookup q u ≡ some amount
      → (n : ℕ) × (lookup q out ≡ some n) × IsBalance q (pos_part amount) (neg_part amount) n
  unfolding checked_balances
  checked_present q [] acc d h e = absurd (cc)
  checked_present q ((k, v) ∷ u) acc {out} {amount} d h e =
      let (n, here, rest) = >>=-eq-ok (checked_balance rollup_state k v) _ h in
      elim (Bool-cases (q == k)) [
        | inl same ↦
            let is_k = (eq_iff q k).0 same in
            let v_is : v ≡ amount = ground (arith, same) in
            (
              n,
              ground (
                arith,
                is_k,
                lookup-insert k q n acc,
                checked_absent q u (insert k n acc) rest (rw is_k d.0),
              ),
              subst (λ x. IsBalance x (pos_part amount) (neg_part amount) n) (sym is_k)
                  (subst (λ y. IsBalance k (pos_part y) (neg_part y) n) v_is
                    (checked_balance_inv k v here)),
            )
        | inr other ↦ checked_present q u (insert k n acc) d.1 rest (ground arith)
      ]

  present : {A : Type 0} (o : Option A) → is_some o ≡ true → (a : A) × (o ≡ some a)
  present none h = absurd (cc)
  present (some a) h = (a, refl)

  absent : {A : Type 0} (o : Option A) → is_some o ≡ false → o ≡ none
  absent none h = refl
  absent (some a) h = absurd (cc)

  -- If the balances are calculated, every proof was confirmed. An account that no transaction names
  -- has no balance; any other has the balance that is received and deposited less sent and
  -- withdrawn, and that is a `u64`.
  pub balances_lem :
      (bp : BalanceProof) {balances : AccountTotals} (q : BlsPublicKeyWrapper)
      → calculate_balances_and_validate_balance_proof rollup_state bp ≡ ok balances
      → All IsConfirmed (proofs_of bp)
        × ((lookup q balances ≡ none) × (involved q (proofs_of bp) ≡ false)
            ⊎ (n : ℕ) × (lookup q balances ≡ some n)
              × (involved q (proofs_of bp) ≡ true)
              × IsBalance q (received q (proofs_of bp)) (sent q (proofs_of bp)) n)
  unfolding calculate_balances_and_validate_balance_proof
  balances_lem bp {balances} q h =
      let ps = proofs_of bp in
      let (u, first, rest) = >>=-eq-ok (unchecked_balances_of rollup_state ps []) _ h in
      let (u_is, confirmed) = unchecked_inv ps [] first in
      let done : checked_balances rollup_state (all_amounts ps []) [] ≡ ok balances =
        rw u_is at rest in
      (
        confirmed,
        elim (Bool-cases (involved q ps)) [
          | inl named ↦
              let (amount, at_q) =
                present (lookup q (all_amounts ps []))
                  (ground (arith, all_amounts-involved q ps [])) in
              let (n, found, balance) =
                checked_present q (all_amounts ps []) [] (all_amounts-IsMap ps [] tt) done at_q in
              inr (
                n,
                found,
                named,
                record {
                  deposit = balance.deposit;
                  withdraw = balance.withdraw;
                  deposited = balance.deposited;
                  withdrawn = balance.withdrawn;
                  adds_up = ground (arith, all_amounts-Moved q ps [], at_q, balance.adds_up);
                  fits = balance.fits;
                },
              )
          | inr unnamed ↦ inl (
            checked_absent q (all_amounts ps []) [] done (
                absent (lookup q (all_amounts ps []))
                  (ground (arith, all_amounts-involved q ps []))),
            unnamed,
          )
        ],
      )

  -- The balance that is found for an account.
  pub IsBalance-found :
      (bp : BalanceProof) {balances : AccountTotals} (q : BlsPublicKeyWrapper) {n : ℕ}
      → calculate_balances_and_validate_balance_proof rollup_state bp ≡ ok balances
      → lookup q balances ≡ some n
      → IsBalance q (received q (proofs_of bp)) (sent q (proofs_of bp)) n
  IsBalance-found bp q {n} h e = elim (balances_lem bp q h).1 [
    | inl (nothing, _) ↦ absurd (cc)
    | inr (k, found, _, balance) ↦
        let same : k ≡ n = ground arith in
        subst (IsBalance q (received q (proofs_of bp)) (sent q (proofs_of bp))) same balance
  ]

  pub balance_missing :
      (bp : BalanceProof) {balances : AccountTotals} (q : BlsPublicKeyWrapper)
      → calculate_balances_and_validate_balance_proof rollup_state bp ≡ ok balances
      → lookup q balances ≡ none
      → involved q (proofs_of bp) ≡ false
  balance_missing bp q h e = elim (balances_lem bp q h).1 [
    | inl (_, unnamed) ↦ unnamed
    | inr (k, found, _, _) ↦ absurd (cc)
  ]
