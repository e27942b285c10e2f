-- ===== src/Wallet/Wallet/Spending.antt =====
-- What a wallet may spend (append_transaction_to_batch and produce_batch in src/wallet/wallet.rs).
use stateless_payments.Common.{
  ℕ, ◌+◌, ◌-◌, Bytes, ◌≡◌, ◌≢◌, refl, false, not, ◌&&◌, nat_eq, leb, List, [], ◌∷◌, ◌++◌, All,
  All-append, is_empty, if◌then◌else◌, arith,
}
use stateless_payments.Common.Outcome.{ok, on_ok_elim}
use stateless_payments.External.Bls.{Bls}
use stateless_payments.Types.PublicKey.{wrapper_Eq}
use stateless_payments.Types.Transaction.{SimpleTransaction}
use stateless_payments.Wallet.Persist.{Wallet}
use stateless_payments.Wallet.Wallet.{
  can_append, new_transaction, append_transaction_to_batch, can_produce, produce_batch,
}

module _ ⦃b : Bls⦄ where
  -- A transaction that a wallet makes: its own, to somebody else, and of some amount.
  abbrev pub IsSound : b.PublicKey → SimpleTransaction → Type 0
  IsSound own tx = (tx.from ≡ own) × (tx.to ≢ own) × (tx.amount ≢ 0)

  pub record IsValid (w : Wallet) : Type 0 where
    pub own_key : w.public_key ≡ b.public_key w.private_key
    pub owner : w.transaction_batch.from ≡ w.public_key
    pub sound : All (IsSound w.public_key) w.transaction_batch.transactions
    -- Only a batch with a transaction is pending.
    pub filled : (w.batch_is_pending && is_empty w.transaction_batch.transactions) ≡ false

  -- What the transactions of the current batch move.
  abbrev pub amounts : List SimpleTransaction → ℕ
  amounts [] = 0
  amounts (tx ∷ txs) = tx.amount + amounts txs

  pub amounts-append :
      (txs : List SimpleTransaction) (tx : SimpleTransaction)
      → amounts (txs ++ tx ∷ []) ≡ amounts txs + tx.amount
  amounts-append [] tx = omega arith
  amounts-append (x ∷ txs) tx = omega (arith, amounts-append txs tx)

  can_append_inv :
      (to : b.PublicKey) (amount : ℕ) (w : Wallet) {balance : ℕ}
      → can_append to amount w ≡ ok balance
      → (w.batch_is_pending ≡ false)
        × (to ≢ w.public_key)
        × (amount ≢ 0)
        × (balance + amount ≡ w.balance)
  unfolding can_append
  can_append_inv to amount w h = (
    ground arith,
    ground (arith, b.public_key_eq.beq_iff to w.public_key),
    ground arith,
    ground arith,
  )

  -- A transaction is appended exactly if the batch is not pending, it goes to somebody else, and its
  -- amount is positive and covered; then it is put last in the batch, and its amount leaves the
  -- balance. Otherwise the wallet stays as it was.
  append_lem :
      (to : b.PublicKey) (amount : ℕ) (salt : Bytes) (w : Wallet)
      → (append_transaction_to_batch to amount salt w).1 ≡ (
          if not w.batch_is_pending
            && (not (b.public_key_eq.beq to w.public_key)
                && (not (nat_eq amount 0) && leb amount w.balance))
          then record w {
            balance = w.balance - amount;
            transaction_batch = record (w.transaction_batch) {
              transactions =
                  w.transaction_batch.transactions
                  ++ record { to = to; from = w.public_key; amount = amount; salt = salt } ∷ [];
            };
          }
          else w)
  unfolding append_transaction_to_batch can_append
  append_lem to amount salt w = ground arith

  -- The balance and the amounts of the batch are together what they were, whatever is appended.
  pub append_conserves :
      (to : b.PublicKey) (amount : ℕ) (salt : Bytes) (w : Wallet)
      → let w' = (append_transaction_to_batch to amount salt w).1 in
        w'.balance + amounts w'.transaction_batch.transactions
        ≡ w.balance + amounts w.transaction_batch.transactions
  unfolding append_transaction_to_batch
  append_conserves to amount salt w =
      on_ok_elim
        (λ x.
          x.1.balance + amounts x.1.transaction_batch.transactions
          ≡ w.balance + amounts w.transaction_batch.transactions)
        (can_append to amount w) w _ (λ e. refl) refl
        λ balance h. omega (
          arith,
          (can_append_inv to amount w h).3,
          amounts-append w.transaction_batch.transactions (new_transaction to amount salt w),
        )

  not_empty_append : {A : Type 0} (xs : List A) (x : A) → is_empty (xs ++ x ∷ []) ≡ false
  not_empty_append [] x = refl
  not_empty_append (y ∷ xs) x = refl

  -- Whatever is appended or refused, the transactions of a wallet's batch stay its own, to others and
  -- of some amount, and only a batch with a transaction is pending.
  append-IsValid :
      (to : b.PublicKey) (amount : ℕ) (salt : Bytes) (w : Wallet)
      → IsValid w
      → IsValid (append_transaction_to_batch to amount salt w).1
  unfolding append_transaction_to_batch
  append-IsValid to amount salt w v =
      on_ok_elim (λ x. IsValid x.1) (can_append to amount w) w _ (λ e. v) v
        λ balance h.
          let (idle, other, positive, _) = can_append_inv to amount w h in
          record {
            own_key = v.own_key;
            owner = v.owner;
            sound =
                All-append (IsSound w.public_key) w.transaction_batch.transactions _ v.sound
                  ((refl, other, positive), tt);
            filled = rw idle;
          }

  -- Producing the batch, or failing to, keeps a wallet valid: only a batch with a transaction is
  -- pending.
  produce-IsValid : (w : Wallet) → IsValid w → IsValid (produce_batch w).1
  unfolding produce_batch can_produce
  produce-IsValid w v = ground arith
