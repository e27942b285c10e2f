-- ===== src/Wallet/Utils/Order.antt =====
-- The order in which the maps of src/wallet/utils.rs are iterated.
use mathlib.Core.List.{Perm, foldr}
use mathlib.Core.List.Perm
use stateless_payments.Common.{
  ℕ, ◌+◌, ◌≡◌, refl, sym, ap, ◌∙◌, inl, inr, Bool, true, false, ◌&&◌, ◌||◌, some, List, [], ◌∷◌,
  All, arith,
}
use stateless_payments.Common.Assoc.{lookup}
use stateless_payments.Common.Outcome.{Result, ok, err, panic, >>=-eq-ok}
use stateless_payments.External.Bls.{Bls}
use stateless_payments.External.Sha2.{Sha256}
use stateless_payments.External.RsMerkle.{RsMerkle}
use stateless_payments.Types.PublicKey.{BlsPublicKeyWrapper, AccountTotals, wrapper_Eq}
use stateless_payments.Types.Transaction.{TransactionProof, SerdeTransaction, sha256_algorithm_hash}
use stateless_payments.Types.Balance.{BalanceProof}
use stateless_payments.Rollup.Traits.{RollupStateTrait}
use stateless_payments.Wallet.Utils.{
  check_proof, unchecked_balances_of, calculate_balances_and_validate_balance_proof,
}
use stateless_payments.Wallet.Utils.Ledger.{
  sent_in, received_in, involved_in, sent, received, involved,
}
use stateless_payments.Wallet.Utils.Balances.{
  proofs_of, IsConfirmed, IsBalance, balances_lem, unchecked_inv,
}
use stateless_payments.Wallet.Utils.Complete.{IsCovered, balances_total}

-- A sum and a search over a list, in whatever order.
module _ {A : Type 0} where
  sum-perm :
      (f : A → ℕ) {x y : List A}
      → Perm x y
      → foldr (λ a n. f a + n) 0 x ≡ foldr (λ a n. f a + n) 0 y
  sum-perm f p = Perm.foldr-eq (hlevel) (λ (a : A) (n : ℕ). f a + n) (λ a c n. omega arith) p 0

  any-perm :
      (f : A → Bool) {x y : List A}
      → Perm x y
      → foldr (λ a n. f a || n) false x ≡ foldr (λ a n. f a || n) false y
  any-perm f p =
      Perm.foldr-eq (hlevel) (λ (a : A) (n : Bool). f a || n) (λ a c n. ground arith) p false

  all-perm :
      (f : A → Bool) {x y : List A}
      → Perm x y
      → foldr (λ a n. f a && n) true x ≡ foldr (λ a n. f a && n) true y
  all-perm f p =
      Perm.foldr-eq (hlevel) (λ (a : A) (n : Bool). f a && n) (λ a c n. ground arith) p true

module _ ⦃b : Bls⦄ where
  sent-foldr :
      (q : BlsPublicKeyWrapper) (ps : List TransactionProof)
      → sent q ps ≡ foldr (λ p n. sent_in q p.batch.from p.batch.transactions + n) 0 ps
  sent-foldr q [] = refl
  sent-foldr q (p ∷ ps) = omega (arith, sent-foldr q ps)

  received-foldr :
      (q : BlsPublicKeyWrapper) (ps : List TransactionProof)
      → received q ps ≡ foldr (λ p n. received_in q p.batch.transactions + n) 0 ps
  received-foldr q [] = refl
  received-foldr q (p ∷ ps) = omega (arith, received-foldr q ps)

  involved-foldr :
      (q : BlsPublicKeyWrapper) (ps : List TransactionProof)
      → involved q ps ≡ foldr (λ p n. involved_in q p.batch.from p.batch.transactions || n) false ps
  involved-foldr q [] = refl
  involved-foldr q (p ∷ ps) =
      ap (λ n. involved_in q p.batch.from p.batch.transactions || n) (involved-foldr q ps)

  sent-perm :
      (q : BlsPublicKeyWrapper) {x y : List TransactionProof} → Perm x y → sent q x ≡ sent q y
  sent-perm q {x} {y} p = sent-foldr q x ∙ sum-perm _ p ∙ sym (sent-foldr q y)

  received-perm :
      (q : BlsPublicKeyWrapper) {x y : List TransactionProof}
      → Perm x y
      → received q x ≡ received q y
  received-perm q {x} {y} p = received-foldr q x ∙ sum-perm _ p ∙ sym (received-foldr q y)

  involved-perm :
      (q : BlsPublicKeyWrapper) {x y : List TransactionProof}
      → Perm x y
      → involved q x ≡ involved q y
  involved-perm q {x} {y} p = involved-foldr q x ∙ any-perm _ p ∙ sym (involved-foldr q y)

abbrev is_ok : {E : Type 0} → Result E (Unit {0}) → Bool
is_ok (ok x) = true
is_ok (err e) = false
is_ok panic = false

ok_inj : {E : Type 0} {u v : ℕ} → ◌≡◌ {A = Result E ℕ} (ok u) (ok v) → u ≡ v
ok_inj e = cc

is_ok-eq : {E : Type 0} (r : Result E (Unit {0})) → is_ok r ≡ true → r ≡ ok tt
is_ok-eq (ok x) h = refl
is_ok-eq (err e) h = absurd (cc)
is_ok-eq panic h = absurd (cc)

module _ ⦃b : Bls⦄ ⦃s : Sha256⦄ ⦃j : SerdeTransaction⦄ ⦃m : RsMerkle sha256_algorithm_hash⦄
    {State : Type 0} ⦃t : RollupStateTrait State⦄ (rollup_state : State) where
  abbrev passes : TransactionProof → Bool
  passes p = is_ok (check_proof rollup_state p)

  all_pass :
      (ps : List TransactionProof)
      → All (IsConfirmed rollup_state) ps
      → foldr (λ p n. passes p && n) true ps ≡ true
  all_pass [] h = refl
  all_pass (p ∷ ps) h = ground (arith, all_pass ps h.1)

  pass_all :
      (ps : List TransactionProof)
      → foldr (λ p n. passes p && n) true ps ≡ true
      → All (IsConfirmed rollup_state) ps
  pass_all [] h = tt
  pass_all (p ∷ ps) h =
      (is_ok-eq (check_proof rollup_state p) (ground arith), pass_all ps (ground arith))

  IsConfirmed-perm :
      {x y : List TransactionProof}
      → Perm x y
      → All (IsConfirmed rollup_state) x
      → All (IsConfirmed rollup_state) y
  IsConfirmed-perm {x} {y} p h = pass_all y (sym (all-perm passes p) ∙ all_pass x h)

  -- An account has one balance.
  IsBalance-unique :
      (q : BlsPublicKeyWrapper) (into out : ℕ) {n k : ℕ}
      → IsBalance rollup_state q into out n
      → IsBalance rollup_state q into out k
      → n ≡ k
  IsBalance-unique q into out {n} {k} x y =
      let d : x.deposit ≡ y.deposit = ok_inj (sym x.deposited ∙ y.deposited) in
      let w : x.withdraw ≡ y.withdraw = ok_inj (sym x.withdrawn ∙ y.withdrawn) in
      omega (arith, x.adds_up, y.adds_up, d, w)

  covers :
      (q : BlsPublicKeyWrapper) (into out : ℕ) {n : ℕ}
      → IsBalance rollup_state q into out n
      → IsCovered rollup_state q into out
  covers q into out x = record {
    deposit = x.deposit;
    withdraw = x.withdraw;
    deposited = x.deposited;
    withdrawn = x.withdrawn;
    covers = omega (arith, x.adds_up);
    fits = omega (arith, x.adds_up, x.fits);
  }

  calculated-IsConfirmed :
      (bp : BalanceProof) {balances : AccountTotals}
      → calculate_balances_and_validate_balance_proof rollup_state bp ≡ ok balances
      → All (IsConfirmed rollup_state) (proofs_of bp)
  unfolding calculate_balances_and_validate_balance_proof
  calculated-IsConfirmed bp h =
      let (_, first, _) = >>=-eq-ok (unchecked_balances_of rollup_state (proofs_of bp) []) _ h in
      (unchecked_inv rollup_state (proofs_of bp) [] first).1

  calculated_covers :
      (bp : BalanceProof) {balances : AccountTotals} (q : BlsPublicKeyWrapper)
      → calculate_balances_and_validate_balance_proof rollup_state bp ≡ ok balances
      → involved q (proofs_of bp) ≡ true
      → IsCovered rollup_state q (received q (proofs_of bp)) (sent q (proofs_of bp))
  calculated_covers bp q h named = elim (balances_lem rollup_state bp q h).1 [
    | inl (_, unnamed) ↦ absurd (cc)
    | inr (n, _, _, balance) ↦ covers q _ _ balance
  ]

  same_lookup :
      (x y : BalanceProof) {bx by' : AccountTotals} (q : BlsPublicKeyWrapper)
      → Perm (proofs_of x) (proofs_of y)
      → calculate_balances_and_validate_balance_proof rollup_state x ≡ ok bx
      → calculate_balances_and_validate_balance_proof rollup_state y ≡ ok by'
      → lookup q bx ≡ lookup q by'
  same_lookup x y {bx} {by'} q p hx hy =
      let i = involved-perm q p in
      elim (balances_lem rollup_state x q hx).1 [
        | inl (none_x, un_x) ↦ elim (balances_lem rollup_state y q hy).1 [
          | inl (none_y, _) ↦ none_x ∙ sym none_y
          | inr (_, _, in_y, _) ↦ absurd (cc)
        ]
        | inr (n, some_x, in_x, is_x) ↦ elim (balances_lem rollup_state y q hy).1 [
          | inl (_, un_y) ↦ absurd (cc)
          | inr (k, some_y, _, is_y) ↦
              let moved : IsBalance rollup_state q (received q (proofs_of x)) (sent q (proofs_of x))
                  k =
                rw (received-perm q p, sent-perm q p) is_y in
              some_x ∙ ap some (IsBalance-unique q _ _ is_x moved) ∙ sym some_y
        ]
      ]

  -- In whatever order the proofs of a balance proof are gone through, the balances are calculated or
  -- not, and every account has the same balance.
  pub balances-perm :
      (x y : BalanceProof) {balances : AccountTotals}
      → Perm x y
      → calculate_balances_and_validate_balance_proof rollup_state x ≡ ok balances
      → (others : AccountTotals) × (calculate_balances_and_validate_balance_proof rollup_state y
          ≡ ok others)
        × ((q : BlsPublicKeyWrapper) → lookup q others ≡ lookup q balances)
  balances-perm x y {balances} same h =
      let p : Perm (proofs_of x) (proofs_of y) = Perm.map (λ kv. kv.1) same in
      let confirmed = calculated-IsConfirmed x h in
      let (others, done) = balances_total rollup_state y (IsConfirmed-perm p confirmed) (λ q named.
        rw (← received-perm q p, ← sent-perm q p)
          (calculated_covers x q h (involved-perm q p ∙ named))) in
      (others, done, λ q. sym (same_lookup x y q p h done))
