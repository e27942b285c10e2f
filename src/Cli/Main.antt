-- ===== src/Cli/Main.antt =====
-- src/bin/wallet.rs: how the wallet program starts, up to the tasks that it waits for. The
-- contract's file and what `connect_async` ends in are arguments; the welcome that is
-- printed is left out.
use stateless_payments.Common.{ℕ, ◌+◌, ◌≡◌, refl, Bytes, bytes_Eq, Option, none, some, List, ◌∷◌}
use stateless_payments.Common.Assoc.{lookup-insert_self}
use stateless_payments.Common.Words.{Profile}
use stateless_payments.Common.Outcome.{Result, ok, on_ok}
use stateless_payments.External.Bls.{Bls}
use stateless_payments.External.Sha2.{Sha256}
use stateless_payments.External.RsMerkle.{RsMerkle}
use stateless_payments.External.Tungstenite.{Tungstenite}
use stateless_payments.Types.PublicKey.{AccountTotals, wrap}
use stateless_payments.Types.Transaction.{SerdeTransaction, sha256_algorithm_hash}
use stateless_payments.Types.Errors.{CrateResult}
use stateless_payments.Types.Balance.Serde.{KeyCodec}
use stateless_payments.Rollup.Traits.{
  total_of, get_account_deposit_amount, get_account_withdraw_amount, get_account_transfer_blocks,
}
use stateless_payments.Rollup.Memory.{memory_trait}
use stateless_payments.Rollup.Memory.Solvency.{IsSolvent}
use stateless_payments.Rollup.Fs.{Disk, SerdeRollupState, fs_trait}
use stateless_payments.Rollup.Fs.Refines.{view, read-view}
use stateless_payments.Rollup.Fs.Refines
use stateless_payments.Wallet.Persist
use stateless_payments.Wallet.Persist.{
  Wallet, WalletPersistState, Files, SerdeWallet, state, content_of, put_content, wallet_path,
  into_wallet, load_wallet_state,
}
use stateless_payments.Wallet.Persist.RoundTrip.{IsHealthy, saved_lem, read_lem}
use stateless_payments.Wallet.Utils.{calculate_balances_and_validate_balance_proof}
use stateless_payments.Wallet.Utils.Ledger.{sent, received}
use stateless_payments.Wallet.Utils.Balances.{proofs_of}
use stateless_payments.Wallet.Wallet.Syncing.{synced_at}
use stateless_payments.Websocket.Messages.{SerdeWsMessage, c_add_connection}
use stateless_payments.Websocket.Client
use stateless_payments.Websocket.Client.{Client, SyncState, get_sync_state}
use stateless_payments.Websocket.Client.Starting.{started_lem}

-- The first argument behind the program's own name.
abbrev pub wallet_name : List Bytes → Option Bytes
wallet_name (program ∷ name ∷ rest) = some name
wallet_name _ = none

module _ ⦃b : Bls⦄ ⦃c : SerdeRollupState⦄ where
  -- What is read of an account.
  deposit_read :
      (pk : b.PublicKey) (disk : Disk)
      → Refines.IsHealthy disk
      → get_account_deposit_amount pk disk ≡ ok (total_of (wrap pk) (view disk).deposit_totals)
  unfolding get_account_deposit_amount
  deposit_read pk disk h = rw (read-view disk h) refl

  withdraw_read :
      (pk : b.PublicKey) (disk : Disk)
      → Refines.IsHealthy disk
      → get_account_withdraw_amount pk disk ≡ ok (total_of (wrap pk) (view disk).withdraw_totals)
  unfolding get_account_withdraw_amount
  withdraw_read pk disk h = rw (read-view disk h) refl

  sync_state_read :
      (pk : b.PublicKey) (disk : Disk)
      → Refines.IsHealthy disk
      → (last : SyncState) × (get_sync_state pk disk ≡ ok last)
  unfolding get_sync_state get_account_deposit_amount get_account_withdraw_amount
      get_account_transfer_blocks
  sync_state_read pk disk h =
      let read : (last : SyncState) × (get_sync_state pk (view disk) ≡ ok last) = (_, refl) in
      (read.0, rw (read-view disk h) read.1)

module _ ⦃b : Bls⦄ ⦃s : Sha256⦄ ⦃j : SerdeTransaction⦄ ⦃m : RsMerkle sha256_algorithm_hash⦄
    ⦃ws : Tungstenite⦄ ⦃w : SerdeWsMessage⦄ ⦃c : SerdeWallet⦄ ⦃r : SerdeRollupState⦄ where
  -- `main`: the wallet, with the key that it would draw, and its client, at the contract's file.
  unfoldable pub start :
      Profile
      → List Bytes
      → b.SecretKey
      → Disk
      → Result ws.WsError ws.Sink
      → Files
      → CrateResult (Client × SyncState) × Files
  start profile args drawn rollup_state connected files =
      let (wallet, files') = Persist.new (wallet_name args) drawn files in
      on_ok wallet files' λ found. (Client.new profile rollup_state connected found, files')

  loaded_lem :
      (name : Bytes) (drawn : b.SecretKey) (files : Files) {x : WalletPersistState}
      → IsHealthy files
      → c.from_reader (content_of (wallet_path name) files) ≡ state x
      → x.wallet_name ≡ some name
      → Persist.new (some name) drawn files
        ≡ (ok (into_wallet x), put_content (wallet_path name) (c.to_writer x) files)
  unfolding Persist.new load_wallet_state
  loaded_lem name drawn files {x} h reads named =
      rw (read_lem name drawn files h reads, saved_lem (into_wallet x) name files h named) refl

  module _ ⦃k : KeyCodec⦄ where
    -- The wallet's file holds a state under its name, every system call on it and on the contract's
    -- file succeeds, the state's balance proof passes at the contract's file, which keeps withdrawals
    -- within deposits, and the announcement of the wallet's key goes out. Then the program that is
    -- started with that name, whatever key it would draw for a new wallet, has the keys and the
    -- balance proof of the file, no batch, and the balance that is received and deposited less sent
    -- and withdrawn; and the wallet's file holds that state again.
    pub restarted :
        (profile : Profile) (disk : Disk) (sink : ws.Sink) (program name : Bytes)
        (rest : List Bytes) (drawn : b.SecretKey) (files : Files) {x : WalletPersistState}
        {balances : AccountTotals}
        → IsHealthy files
        → c.from_reader (content_of (wallet_path name) files) ≡ state x
        → x.wallet_name ≡ some name
        → Refines.IsHealthy disk
        → IsSolvent (view disk)
        → calculate_balances_and_validate_balance_proof disk x.balance_proof ≡ ok balances
        → (ws.send (w.to_string (c_add_connection (b.public_key x.private_key))) sink).0 ≡ ok tt
        → let pk = b.public_key x.private_key in
          let ps = proofs_of x.balance_proof in
          (n : ℕ) × (last : SyncState) × (files' : Files) × (start profile
              (program ∷ name ∷ rest)
              drawn
              disk
              (ok sink)
              files
            ≡ (
              ok (
                record {
                  wallet = record (into_wallet x) { balance = n };
                  ws_send = (ws.send (w.to_string (c_add_connection pk)) sink).1;
                },
                last,
              ),
              files',
            ))
          × (n + sent (wrap pk) ps + total_of (wrap pk) (view disk).withdraw_totals
              ≡ received (wrap pk) ps + total_of (wrap pk) (view disk).deposit_totals)
          × (content_of (wallet_path name) files' ≡ c.to_writer x)
    unfolding start
    restarted profile disk sink program name rest drawn files {x} healthy reads named readable
          solvent passes sends =
        let pk = b.public_key x.private_key in
        let wallet = into_wallet x in
        let (n, balanced, adds_up) =
          synced_at profile disk wallet (deposit_read pk disk readable)
            (withdraw_read pk disk readable) (solvent (wrap pk)) passes in
        let (last, read) = sync_state_read pk disk readable in
        let (starts, _, _) = started_lem profile disk sink wallet balanced read sends in
        (
          n,
          last,
          put_content (wallet_path name) (c.to_writer x) files,
          rw (loaded_lem name drawn files healthy reads named, starts) refl,
          adds_up,
          rw (lookup-insert_self (wallet_path name) (c.to_writer x) files.contents, content_of)
              refl,
        )
