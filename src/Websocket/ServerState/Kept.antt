-- ===== src/Websocket/ServerState/Kept.antt =====
-- What the calls of clients and connections leave as it is (src/websocket/server/server_state.rs).
use stateless_payments.Common.{Option, is_empty, ◌≡◌, refl}
use stateless_payments.Common.Assoc.{lookup}
use stateless_payments.Common.Outcome.{
  Result, ok, err, panic, ok_or, on_ok_elim, option_elim, if_elim,
}
use stateless_payments.External.Bls.{Bls}
use stateless_payments.External.Sha2.{Sha256}
use stateless_payments.External.RsMerkle.{RsMerkle}
use stateless_payments.External.IndexMap.{IndexMap}
use stateless_payments.External.Tungstenite.{Tungstenite, WsFrame}
use stateless_payments.Types.PublicKey.{BlsPublicKeyWrapper, wrap, wrapper_Eq}
use stateless_payments.Types.Transaction.{TransactionBatch, SerdeTransaction, sha256_algorithm_hash}
use stateless_payments.Types.Errors.{CrateResult, anyhow, invalid_json}
use stateless_payments.Types.Balance.Serde.{KeyCodec}
use stateless_payments.Aggregator.{
  Aggregator, TxMetadata, opened, collect_signatures, new_metadata, set_signature, can_start,
  can_add_batch, can_add_signature, transfer_block_of,
}
use stateless_payments.Aggregator
use stateless_payments.Websocket.Messages.{
  WsMessage, SerdeWsMessage, parse_ws_message, c_add_connection, c_send_transaction_batch,
  c_send_transaction_batch_signature, c_send_batch_to_receivers, s_send_transaction_inclusion_proof,
  s_receive_transaction,
}
use stateless_payments.Websocket.ServerState.{
  Connection, ServerState, from_ws, add_connection, remove_connection, start_collecting_signatures,
  add_batch, add_signature, send_batch_to_receivers,
}
use stateless_payments.Websocket.Handling.{handle_message, handle_loop}
use stateless_payments.Aggregator.Rounds.{Reach, here, next, starts, batches, signs}

module _ ⦃b : Bls⦄ ⦃s : Sha256⦄ ⦃j : SerdeTransaction⦄ ⦃m : RsMerkle sha256_algorithm_hash⦄
    ⦃im : IndexMap BlsPublicKeyWrapper TxMetadata⦄ ⦃ws : Tungstenite⦄ {State : Type 0} where
  -- The aggregator of `u` is that of `x` after some calls, and the contract is the same.
  abbrev pub Kept : ServerState State → ServerState State → Type 0
  Kept x u = Reach x.aggregator u.aggregator × (u.rollup_state ≡ x.rollup_state)

  pub add_connection-Kept :
      (connection : Connection) (x : ServerState State) → Kept x (add_connection connection x)
  unfolding add_connection
  add_connection-Kept connection x = (here, refl)

  pub remove_connection-Kept :
      (pk : b.PublicKey) (x : ServerState State) → Kept x (remove_connection pk x).1
  unfolding remove_connection
  remove_connection-Kept pk x =
      option_elim (λ (y : CrateResult (Unit {0}) × ServerState State). Kept x y.1)
        (lookup (wrap pk) x.connections) _ _ (here, refl)
        λ connection found.
          on_ok_elim (λ y. Kept x y.1) (from_ws (ws.close connection.ws_send).0) _ _
            (λ e. (here, refl)) (here, refl) (λ _ h. (here, refl))

  pub start_collecting_signatures-Kept :
      ⦃w : SerdeWsMessage⦄ (x : ServerState State) → Kept x (start_collecting_signatures x).1
  unfolding start_collecting_signatures
  start_collecting_signatures-Kept x =
      let st = next here starts in
      if_elim (λ (y : CrateResult (Option (Unit {0})) × ServerState State). Kept x y.1)
        (is_empty (im.entries x.aggregator.tx_hash_to_metadata)) _ _ (here, refl)
        (on_ok_elim (λ y. Kept x y.1) (Aggregator.start_collecting_signatures x.aggregator).0 _ _
          (λ e. (st, refl)) (st, refl) (λ _ h. (st, refl)))

  add_batch-Kept :
      ⦃c : KeyCodec⦄ (batch : TransactionBatch) (x : ServerState State)
      → Kept x (add_batch batch x).1
  unfolding add_batch
  add_batch-Kept ⦃c⦄ batch x =
      let st = next here (batches batch) in
      on_ok_elim (λ y. Kept x y.1) (ok_or (c.key_to_json batch.from) (anyhow invalid_json)) x _
        (λ e. (here, refl)) (here, refl)
        λ _ h.
          on_ok_elim (λ y. Kept x y.1) (Aggregator.add_batch batch x.aggregator).0 _ _
            (λ e. (st, refl)) (st, refl) (λ _ k. (st, refl))

  add_signature-Kept :
      ⦃c : KeyCodec⦄ (pk : b.PublicKey) (signature : b.Signature) (x : ServerState State)
      → Kept x (add_signature pk signature x).1
  unfolding add_signature
  add_signature-Kept ⦃c⦄ pk signature x =
      let st = next here (signs pk signature) in
      on_ok_elim (λ y. Kept x y.1) (ok_or (c.key_to_json pk) (anyhow invalid_json)) x _
        (λ e. (here, refl)) (here, refl)
        λ _ h.
          on_ok_elim (λ y. Kept x y.1) (Aggregator.add_signature pk signature x.aggregator).0 _ _
            (λ e. (st, refl)) (st, refl) (λ _ k. (st, refl))

  module _ ⦃w : SerdeWsMessage⦄ ⦃c : KeyCodec⦄ where
    handle_message-Kept :
        (message : WsMessage) (x : ServerState State) → Kept x (handle_message message x).1
    unfolding handle_message send_batch_to_receivers
    handle_message-Kept (c_add_connection pk) x = (here, refl)
    handle_message-Kept (c_send_transaction_batch batch) x = add_batch-Kept batch x
    handle_message-Kept (c_send_transaction_batch_signature pk sig) x = add_signature-Kept pk sig x
    handle_message-Kept (c_send_batch_to_receivers proof bp) x = (here, refl)
    handle_message-Kept (s_send_transaction_inclusion_proof proof) x = (here, refl)
    handle_message-Kept (s_receive_transaction proof bp) x = (here, refl)

    pub handle_loop-Kept :
        (received : Result ws.WsError WsFrame) (x : ServerState State)
        → Kept x (handle_loop received x).1
    unfolding handle_loop
    handle_loop-Kept (ok frame) x =
        on_ok_elim (λ y. Kept x y.1) (parse_ws_message frame) x _ (λ e. (here, refl)) (here, refl)
          (λ message h. handle_message-Kept message x)
    handle_loop-Kept (err e) x = (here, refl)
    handle_loop-Kept panic x = (here, refl)
