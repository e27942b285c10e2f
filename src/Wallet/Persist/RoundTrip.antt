-- ===== src/Wallet/Persist/RoundTrip.antt =====
-- A saved wallet is the one that is loaded (src/wallet/wallet.rs).
use stateless_payments.Common.{Bytes, bytes_Eq, ◌≡◌, refl, sym, ap, ◌∙◌, false, some, arith}
use stateless_payments.Common.Assoc.{lookup, lookup-insert_self}
use stateless_payments.Common.Outcome.{ok}
use stateless_payments.External.Bls.{Bls}
use stateless_payments.Types.PublicKey.{wrapper_Eq}
use stateless_payments.Types.Transaction.{new_batch}
use stateless_payments.Types.Balance.{BalanceProofKey, key_Eq}
use stateless_payments.Wallet.Persist.{
  Wallet, WalletPersistState, Files, SerdeWallet, state, content_of, put_content, wallet_path,
  persist_state, into_wallet, get_wallet_path, write_file, save_wallet_state, read_wallet_state,
  load_wallet_state,
}

-- Every system call on the wallet files succeeds.
pub record IsHealthy (files : Files) : Type 0 where
  pub creates : files.create_dir_fails ≡ false
  pub opens : files.open_fails ≡ false
  pub locks : files.lock_fails ≡ false
  pub writes : files.write_fails ≡ false
  pub unlocks : files.unlock_fails ≡ false

module _ ⦃b : Bls⦄ ⦃c : SerdeWallet⦄ where
  pub saved_lem :
      (w : Wallet) (name : Bytes) (files : Files)
      → IsHealthy files
      → w.wallet_name ≡ some name
      → save_wallet_state w files
        ≡ (ok tt, put_content (wallet_path name) (c.to_writer (persist_state w)) files)
  unfolding save_wallet_state get_wallet_path write_file
  saved_lem w name files h e = ground arith

  pub read_lem :
      (name : Bytes) (drawn : b.SecretKey) (files : Files) {back : WalletPersistState}
      → IsHealthy files
      → c.from_reader (content_of (wallet_path name) files) ≡ state back
      → read_wallet_state name drawn files ≡ ok back
  unfolding read_wallet_state get_wallet_path
  read_lem name drawn files h e = rw (h.creates, h.opens, h.unlocks, e)

  -- If every system call succeeds, a wallet that has its secret key's public key and was saved
  -- under its name is loaded with the same keys, the same name and the same balance proof, whatever
  -- key was drawn for a new one; its batch is empty and its balance is 0.
  pub load-save :
      (w : Wallet) (name : Bytes) (drawn : b.SecretKey) (files : Files)
      → IsHealthy files
      → w.wallet_name ≡ some name
      → w.public_key ≡ b.public_key w.private_key
      → (back : Wallet) × (files' : Files) × (load_wallet_state name drawn
            (save_wallet_state w files).1
          ≡ (ok back, files'))
        × (back.public_key ≡ w.public_key)
        × (back.private_key ≡ w.private_key)
        × (back.wallet_name ≡ w.wallet_name)
        × ((q : BalanceProofKey) → lookup q back.balance_proof ≡ lookup q w.balance_proof)
        × (back.transaction_batch ≡ new_batch w.public_key)
        × (back.balance ≡ 0)
  unfolding load_wallet_state
  load-save w name drawn files h e own =
      let written = put_content (wallet_path name) (c.to_writer (persist_state w)) files in
      let (back, reads, alike) = c.from_reader-to_writer (persist_state w) in
      let again =
        put_content (wallet_path name) (c.to_writer (persist_state (into_wallet back))) written in
      let stored : content_of (wallet_path name) written ≡ c.to_writer (persist_state w) = rw (
        lookup-insert_self (wallet_path name) (c.to_writer (persist_state w)) files.contents,
        content_of,
      ) in
      let healthy : IsHealthy written = record {
        creates = h.creates;
        opens = h.opens;
        locks = h.locks;
        writes = h.writes;
        unlocks = h.unlocks;
      } in
      (
        into_wallet back,
        again,
        rw (
          saved_lem w name files h e,
          read_lem name drawn written {back = back} healthy (rw stored reads),
          saved_lem (into_wallet back) name written healthy (alike.same_name ∙ e),
        ),
        ap b.public_key alike.same_key ∙ sym own,
        alike.same_key,
        alike.same_name,
        alike.same_proofs,
        ap new_batch (ap b.public_key alike.same_key ∙ sym own),
        refl,
      )
