-- ===== src/Wallet/Utils/Ledger.antt =====
-- The amounts that the loops of src/wallet/utils.rs keep, against sums over the transactions.
use stateless_payments.Common.{
  ℕ, ◌+◌, ◌≡◌, Bool, false, ◌||◌, none, some, List, [], ◌∷◌, arith, if◌then◌else◌, ◌==◌, is_some,
}
use stateless_payments.Common.Assoc.{lookup, lookup-upsert, IsMap, upsert-IsMap}
use stateless_payments.Common.Int.{
  ℤ, pos, pos_part, neg_part, ◌+ℤ◌, ◌-ℤ◌, +ℤ_parts, -ℤ_parts, int_laws,
}
use stateless_payments.External.Bls.{Bls}
use stateless_payments.Types.PublicKey.{BlsPublicKeyWrapper, wrap, eq_iff, wrapper_Eq}
use stateless_payments.Types.Transaction.{SimpleTransaction, TransactionProof}
use stateless_payments.Wallet.Utils.{UncheckedBalances, debit, credit, move_amounts}

module _ ⦃b : Bls⦄ where
  -- What an account sends and receives in the transactions of a batch.
  abbrev pub sent_in : BlsPublicKeyWrapper → b.PublicKey → List SimpleTransaction → ℕ
  sent_in q from [] = 0
  sent_in q from (tx ∷ txs) = (if q == wrap from then tx.amount else 0) + sent_in q from txs

  abbrev pub received_in : BlsPublicKeyWrapper → List SimpleTransaction → ℕ
  received_in q [] = 0
  received_in q (tx ∷ txs) = (if q == wrap tx.to then tx.amount else 0) + received_in q txs

  abbrev pub involved_in : BlsPublicKeyWrapper → b.PublicKey → List SimpleTransaction → Bool
  involved_in q from [] = false
  involved_in q from (tx ∷ txs) = (q == wrap from) || ((q == wrap tx.to) || involved_in q from txs)

  -- The same over the batches of a list of proofs.
  abbrev pub sent : BlsPublicKeyWrapper → List TransactionProof → ℕ
  sent q [] = 0
  sent q (p ∷ ps) = sent_in q p.batch.from p.batch.transactions + sent q ps

  abbrev pub received : BlsPublicKeyWrapper → List TransactionProof → ℕ
  received q [] = 0
  received q (p ∷ ps) = received_in q p.batch.transactions + received q ps

  abbrev pub involved : BlsPublicKeyWrapper → List TransactionProof → Bool
  involved q [] = false
  involved q (p ∷ ps) = involved_in q p.batch.from p.batch.transactions || involved q ps

  -- The loops over lists of proofs, with the checks left out.
  abbrev pub all_amounts : List TransactionProof → UncheckedBalances → UncheckedBalances
  all_amounts [] u = u
  all_amounts (p ∷ ps) u = all_amounts ps (move_amounts p.batch.from p.batch.transactions u)

  abbrev pub amount_at : BlsPublicKeyWrapper → UncheckedBalances → ℤ
  amount_at q u = elim (lookup q u) [ none ↦ pos 0 | some amount ↦ amount ]

  abbrev pub sum_of : UncheckedBalances → ℤ
  sum_of [] = pos 0
  sum_of ((k, v) ∷ u) = v +ℤ sum_of u

  amount-debit :
      (q k : BlsPublicKeyWrapper) (n : ℕ) (u : UncheckedBalances)
      → amount_at q (debit k n u) ≡ (if q == k then amount_at q u -ℤ pos n else amount_at q u)
  amount-debit q k n u =
      ground (arith, eq_iff q k, lookup-upsert k q (λ e. e -ℤ pos n) (pos 0 -ℤ pos n) u)

  zero_add : (n : ℕ) → pos 0 +ℤ pos n ≡ pos n
  zero_add n = omega int_laws

  amount-credit :
      (q k : BlsPublicKeyWrapper) (n : ℕ) (u : UncheckedBalances)
      → amount_at q (credit k n u) ≡ (if q == k then amount_at q u +ℤ pos n else amount_at q u)
  amount-credit q k n u =
      ground (arith, eq_iff q k, zero_add n, lookup-upsert k q (λ e. e +ℤ pos n) (pos n) u)

  -- An amount and what it became: less what was sent, more what was received.
  abbrev pub Moved : ℤ → ℕ → ℕ → ℤ → Type 0
  Moved before out into after =
      pos_part after + neg_part before + out ≡ neg_part after + pos_part before + into

  transfer-Moved :
      (q from to : BlsPublicKeyWrapper) (n : ℕ) (u : UncheckedBalances)
      → Moved
          (amount_at q u)
          (if q == from then n else 0)
          (if q == to then n else 0)
          (amount_at q (credit to n (debit from n u)))
  transfer-Moved q from to n u =
      rw (amount-credit q to n (debit from n u), amount-debit q from n u)
        (ground (
          arith,
          +ℤ_parts (amount_at q u -ℤ pos n) (pos n),
          +ℤ_parts (amount_at q u) (pos n),
          -ℤ_parts (amount_at q u) (pos n),
        ))

  move_amounts-Moved :
      (q : BlsPublicKeyWrapper) (from : b.PublicKey) (txs : List SimpleTransaction)
      (u : UncheckedBalances)
      → Moved
          (amount_at q u)
          (sent_in q from txs)
          (received_in q txs)
          (amount_at q (move_amounts from txs u))
  unfolding move_amounts
  move_amounts-Moved q from [] u = omega arith
  move_amounts-Moved q from (tx ∷ txs) u = omega (
    arith,
    transfer-Moved q (wrap from) (wrap tx.to) tx.amount u,
    move_amounts-Moved q from txs (credit (wrap tx.to) tx.amount (debit (wrap from) tx.amount u)),
  )

  -- Each account's amount is what it received less what it sent.
  pub all_amounts-Moved :
      (q : BlsPublicKeyWrapper) (ps : List TransactionProof) (u : UncheckedBalances)
      → Moved (amount_at q u) (sent q ps) (received q ps) (amount_at q (all_amounts ps u))
  all_amounts-Moved q [] u = omega arith
  all_amounts-Moved q (p ∷ ps) u = omega (
    arith,
    move_amounts-Moved q p.batch.from p.batch.transactions u,
    all_amounts-Moved q ps (move_amounts p.batch.from p.batch.transactions u),
  )

  move_amounts-involved :
      (q : BlsPublicKeyWrapper) (from : b.PublicKey) (txs : List SimpleTransaction)
      (u : UncheckedBalances)
      → is_some (lookup q (move_amounts from txs u))
        ≡ (is_some (lookup q u) || involved_in q from txs)
  unfolding move_amounts
  move_amounts-involved q from [] u = ground arith
  move_amounts-involved q from (tx ∷ txs) u =
      let n = tx.amount in
      let mid = debit (wrap from) n u in
      ground (
        arith,
        eq_iff q (wrap from),
        eq_iff q (wrap tx.to),
        move_amounts-involved q from txs (credit (wrap tx.to) n mid),
        lookup-upsert (wrap tx.to) q (λ e. e +ℤ pos n) (pos n) mid,
        lookup-upsert (wrap from) q (λ e. e -ℤ pos n) (pos 0 -ℤ pos n) u,
      )

  -- Exactly the accounts that a transaction names have an amount.
  pub all_amounts-involved :
      (q : BlsPublicKeyWrapper) (ps : List TransactionProof) (u : UncheckedBalances)
      → is_some (lookup q (all_amounts ps u)) ≡ (is_some (lookup q u) || involved q ps)
  all_amounts-involved q [] u = ground arith
  all_amounts-involved q (p ∷ ps) u = ground (
    arith,
    all_amounts-involved q ps (move_amounts p.batch.from p.batch.transactions u),
    move_amounts-involved q p.batch.from p.batch.transactions u,
  )

  move_amounts-IsMap :
      (from : b.PublicKey) (txs : List SimpleTransaction) (u : UncheckedBalances)
      → IsMap u
      → IsMap (move_amounts from txs u)
  unfolding move_amounts
  move_amounts-IsMap from [] u h = h
  move_amounts-IsMap from (tx ∷ txs) u h =
      move_amounts-IsMap from txs _ (upsert-IsMap _ _ _ _ (upsert-IsMap _ _ _ u h))

  pub all_amounts-IsMap :
      (ps : List TransactionProof) (u : UncheckedBalances) → IsMap u → IsMap (all_amounts ps u)
  all_amounts-IsMap [] u h = h
  all_amounts-IsMap (p ∷ ps) u h =
      all_amounts-IsMap ps _ (move_amounts-IsMap p.batch.from p.batch.transactions u h)
