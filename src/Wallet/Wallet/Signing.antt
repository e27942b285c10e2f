-- ===== src/Wallet/Wallet/Signing.antt =====
-- What a wallet signs (validate_and_sign_proof in src/wallet/wallet.rs).
use stateless_payments.Common.{bytes_eq_iff, ◌≡◌, true, false, some, ◌==◌, if◌then◌else◌, arith}
use stateless_payments.Common.Assoc.{lookup, lookup-insert}
use stateless_payments.Common.Outcome.{ok, on_ok_inv}
use stateless_payments.External.Bls.{Bls}
use stateless_payments.External.Sha2.{Sha256}
use stateless_payments.External.RsMerkle.{RsMerkle}
use stateless_payments.Types.PublicKey.{wrapper_Eq}
use stateless_payments.Types.Transaction.{
  TransactionProof, SerdeTransaction, sha256_algorithm_hash, new_batch, batch_tx_hash, verify_proof,
}
use stateless_payments.Types.TransferBlock.Signers.{from_bls-ok}
use stateless_payments.Types.Balance.{BalanceProofKey, key_Eq}
use stateless_payments.Wallet.Persist.{Wallet, Files, SerdeWallet, save_wallet_state}
use stateless_payments.Wallet.Wallet.{
  own_key, sign_checked, signed_wallet, save_then, validate_and_sign_proof,
}
use stateless_payments.Wallet.Wallet.Spending.{IsValid}

module _ ⦃b : Bls⦄ ⦃s : Sha256⦄ ⦃j : SerdeTransaction⦄ ⦃m : RsMerkle sha256_algorithm_hash⦄ where
  -- What holds of a proof that a wallet signs.
  pub record IsAccepted (p : TransactionProof) (w : Wallet) (signature : b.Signature) : Type 0 where
    pub pending : w.batch_is_pending ≡ true
    pub same_hash : batch_tx_hash w.transaction_batch ≡ batch_tx_hash p.batch
    pub own_batch : p.batch.from ≡ w.public_key
    pub included : verify_proof p ≡ true
    pub signs : b.sign w.private_key p.root ≡ ok signature

  sign_checked_inv :
      (p : TransactionProof) (w : Wallet) {signature : b.Signature}
      → sign_checked p w ≡ ok signature
      → IsAccepted p w signature
  unfolding sign_checked
  sign_checked_inv p w h = record {
    pending = ground arith;
    same_hash =
        ground (arith, bytes_eq_iff (batch_tx_hash w.transaction_batch) (batch_tx_hash p.batch));
    own_batch = ground (arith, b.public_key_eq.beq_iff p.batch.from w.public_key);
    included = ground arith;
    signs = from_bls-ok (b.sign w.private_key p.root) (ground arith);
  }

  -- A wallet with a pending batch signs a proof of it that verifies.
  pub sign_checked_total :
      (p : TransactionProof) (w : Wallet) (signature : b.Signature)
      → IsAccepted p w signature
      → sign_checked p w ≡ ok signature
  unfolding sign_checked
  sign_checked_total p w signature a = ground (
    arith,
    bytes_eq_iff (batch_tx_hash w.transaction_batch) (batch_tx_hash p.batch),
    b.public_key_eq.beq_iff p.batch.from w.public_key,
  )

  module _ ⦃c : SerdeWallet⦄ where
    pub save_then_inv :
        {A : Type 0} (value : A) (w : Wallet) (files : Files) {x : A} {w' : Wallet} {files' : Files}
        → save_then value w files ≡ (ok x, (w', files'))
        → (save_wallet_state w files ≡ (ok tt, files')) × (x ≡ value) × (w' ≡ w)
    save_then_inv value w files h = (ground (arith), ground (arith), ground (arith))

    -- A valid wallet gives a signature only on a verified proof of its own pending batch. The
    -- signature verifies under its key over the proof's root; the proof stands in its balance proof
    -- under that root and its key, nothing else changes there, the next batch begins, and the
    -- balance stays.
    pub validate_and_sign_lem :
        (p : TransactionProof) (w w' : Wallet) (files files' : Files) (signature : b.Signature)
        → IsValid w
        → validate_and_sign_proof p w files ≡ (ok signature, (w', files'))
        → IsAccepted p w signature
          × (b.verify signature w.public_key p.root ≡ ok tt)
          × b.IsAugmented signature
          × ((q : BalanceProofKey)
              → lookup q w'.balance_proof
                ≡ (if q == own_key p.root w then some p else lookup q w.balance_proof))
          × (w'.transaction_batch ≡ new_batch w.public_key)
          × (w'.batch_is_pending ≡ false)
          × (w'.balance ≡ w.balance)
    unfolding validate_and_sign_proof
    validate_and_sign_lem p w w' files files' signature v h =
        let (sig, checked, rest) = on_ok_inv (sign_checked p w) (w, files) _ h in
        let (_, is_sig, is_wallet) =
          save_then_inv sig (signed_wallet p w) files {w' = w'} {files' = files'} rest in
        let accepted : IsAccepted p w signature = sign_checked_inv p w (rw (← is_sig) at checked) in
        (
          accepted,
          rw (v.own_key) (b.verify-sign w.private_key p.root signature accepted.signs),
          b.sign-IsAugmented w.private_key p.root signature accepted.signs,
          λ q. rw is_wallet (lookup-insert (own_key p.root w) q p w.balance_proof),
          ground arith,
          ground arith,
          ground arith,
        )
