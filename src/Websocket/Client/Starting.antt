-- ===== src/Websocket/Client/Starting.antt =====
-- A client that starts (Client::new in src/websocket/client/client.rs).
use stateless_payments.Common.{ℕ, ◌≡◌, refl, sym, ap, some, arith}
use stateless_payments.Common.Words.{Profile}
use stateless_payments.Common.Outcome.{ok, on_ok_inv}
use stateless_payments.External.Bls.{Bls}
use stateless_payments.External.Sha2.{Sha256}
use stateless_payments.External.RsMerkle.{RsMerkle}
use stateless_payments.External.Tungstenite.{Tungstenite, text}
use stateless_payments.Types.PublicKey.{wrapper_Eq}
use stateless_payments.Types.Transaction.{SerdeTransaction, sha256_algorithm_hash}
use stateless_payments.Types.Balance.{key_Eq}
use stateless_payments.Types.Balance.Serde.{KeyCodec}
use stateless_payments.Rollup.Traits.{RollupStateTrait}
use stateless_payments.Wallet.Persist.{Wallet}
use stateless_payments.Wallet.Wallet.{synced_balance, sync_rollup_state}
use stateless_payments.Websocket.Messages.{
  SerdeWsMessage, parse_ws_message, try_from, c_add_connection,
}
use stateless_payments.Websocket.Connections.{first_message, announced}
use stateless_payments.Websocket.Client.Missed.{sync_state_eq_refl}
use stateless_payments.Websocket.Client.{
  Client, SyncState, get_sync_state, act_on_sync, sync_tick, start_automatic_sync, new,
}

abbrev with_balance : ⦃b : Bls⦄ → ℕ → Wallet → Wallet
with_balance n w = record w { balance = n }

module _ ⦃b : Bls⦄ ⦃s : Sha256⦄ ⦃j : SerdeTransaction⦄ ⦃m : RsMerkle sha256_algorithm_hash⦄
    {State : Type 0} ⦃t : RollupStateTrait State⦄ (profile : Profile) (rollup : State) where
  pub sync_inv :
      (w : Wallet) {w' : Wallet}
      → sync_rollup_state rollup profile w ≡ (ok tt, w')
      → (n : ℕ) × (synced_balance rollup profile w ≡ ok n) × (w' ≡ with_balance n w)
  unfolding sync_rollup_state
  sync_inv w h =
      let (n, found, left) = on_ok_inv (synced_balance rollup profile w) w _ h in
      (n, found, sym (ap (λ x. x.1) left))

  -- Syncing once is syncing twice.
  sync_twice :
      (w : Wallet) {w' : Wallet}
      → sync_rollup_state rollup profile w ≡ (ok tt, w')
      → sync_rollup_state rollup profile w' ≡ (ok tt, w')
  sync_twice w {w'} h =
      let (n, found, same) = sync_inv w h in
      let kept : synced_balance rollup profile (with_balance n w)
          ≡ synced_balance rollup profile w =
        unfold synced_balance in refl in
      rw same (unfold sync_rollup_state in rw (kept, found) refl)

  module _ ⦃ws : Tungstenite⦄ ⦃w : SerdeWsMessage⦄ where
    tick_idle :
        (pk : b.PublicKey) (last : SyncState) (self : Client)
        → get_sync_state pk rollup ≡ ok last
        → sync_tick profile pk rollup last self ≡ (ok last, self)
    unfolding sync_tick act_on_sync
    tick_idle pk last self read = rw read (ground (arith, sync_state_eq_refl last))

    module _ ⦃k : KeyCodec⦄ where
      announcement_read :
          (pk : b.PublicKey)
          → first_message (some (ok (text (w.to_string (c_add_connection pk))))) ≡ ok pk
      unfolding first_message announced parse_ws_message try_from
      announcement_read pk =
          rw (w.from_str-to_string (c_add_connection pk) tt, (k.key_json pk).2) refl

      -- A wallet's balance can be calculated at the contract, the contract can be read, and the
      -- announcement of the wallet's key goes out on the open websocket. Then the client starts: its
      -- wallet has that balance, it has sent one message, which the server reads as the announcement,
      -- and the round of the automatic sync that comes next at the same contract changes nothing.
      pub started_lem :
          (sink : ws.Sink) (wallet : Wallet) {n : ℕ} {last : SyncState}
          → synced_balance rollup profile wallet ≡ ok n
          → get_sync_state wallet.public_key rollup ≡ ok last
          → (ws.send (w.to_string (c_add_connection wallet.public_key)) sink).0 ≡ ok tt
          → let announcement = w.to_string (c_add_connection wallet.public_key) in
            let self : Client = record {
              wallet = record wallet { balance = n };
              ws_send = (ws.send announcement sink).1;
            } in
            (new profile rollup (ok sink) wallet ≡ ok (self, last))
            × (first_message (some (ok (text announcement))) ≡ ok wallet.public_key)
            × (sync_tick profile wallet.public_key rollup last self ≡ (ok last, self))
      started_lem sink wallet {n} {last} found read sent =
          let self : Client = record {
            wallet = record wallet { balance = n };
            ws_send = (ws.send (w.to_string (c_add_connection wallet.public_key)) sink).1;
          } in
          let syncs : sync_rollup_state rollup profile wallet ≡ (ok tt, self.wallet) =
            unfold sync_rollup_state in rw found refl in
          let begun : start_automatic_sync profile rollup self ≡ (ok last, self) =
            unfold start_automatic_sync in rw (sync_twice wallet syncs, read) refl in
          (
            unfold new in rw (syncs, sent, begun) refl,
            announcement_read wallet.public_key,
            tick_idle wallet.public_key last self read,
          )
