-- ===== src/Websocket/ServerState/InStep.antt =====
-- The server's table of batches against its aggregator (src/websocket/server/server_state.rs).
use stateless_payments.Common.{Bytes, is_empty, ◌≡◌, refl}
use stateless_payments.Common.Assoc.{lookup}
use stateless_payments.Common.Outcome.{
  Result, ok, err, panic, ok_or, on_ok_elim, on_ok_atomic, if_elim, option_elim,
}
use stateless_payments.External.Bls.{Bls}
use stateless_payments.External.Sha2.{Sha256}
use stateless_payments.External.RsMerkle.{RsMerkle}
use stateless_payments.External.IndexMap.{IndexMap}
use stateless_payments.External.Tungstenite.{Tungstenite, WsFrame}
use stateless_payments.Types.PublicKey.{BlsPublicKeyWrapper, wrap, wrapper_Eq}
use stateless_payments.Types.Transaction.{TransactionBatch, SerdeTransaction, sha256_algorithm_hash}
use stateless_payments.Types.Errors.{CrateResult, anyhow, invalid_json}
use stateless_payments.Types.Balance.Serde.{KeyCodec}
use stateless_payments.Aggregator.{
  Aggregator, TxMetadata, opened, collect_signatures, new_metadata, set_signature, can_start,
  can_add_batch, can_add_signature, transfer_block_of,
}
use stateless_payments.Aggregator
use stateless_payments.Rollup.Traits.{RollupStateTrait}
use stateless_payments.Websocket.Messages.{
  WsMessage, SerdeWsMessage, parse_ws_message, c_add_connection, c_send_transaction_batch,
  c_send_transaction_batch_signature, c_send_batch_to_receivers, s_send_transaction_inclusion_proof,
  s_receive_transaction,
}
use stateless_payments.Websocket.ServerState.{
  Connections, ServerState, from_ws, new, remove_connection, start_collecting_signatures, add_batch,
  add_signature, send_batch_to_receivers, finalise,
}
use stateless_payments.Websocket.Handling.{handle_message, handle_loop}
use stateless_payments.Aggregator.Invariant.{
  IsValid, new-IsValid, start_collecting_signatures-IsValid, add_batch-IsValid,
  add_signature-IsValid, finalise-IsValid,
}
use stateless_payments.Websocket.ServerState.Tracked.{
  IsTracked, batch-IsTracked, signature-IsTracked, new-IsTracked, add_batch-IsAtomic,
  add_signature-IsAtomic, start-map, finalise-map,
}

module _ ⦃b : Bls⦄ ⦃s : Sha256⦄ ⦃j : SerdeTransaction⦄ ⦃m : RsMerkle sha256_algorithm_hash⦄
    ⦃im : IndexMap BlsPublicKeyWrapper TxMetadata⦄ where
  pub record IsInStep ⦃ws : Tungstenite⦄ {State : Type 0} (x : ServerState State) : Type 0 where
    pub valid : IsValid x.aggregator
    pub tracked : IsTracked x.connections_with_tx x.aggregator

module _ ⦃b : Bls⦄ ⦃s : Sha256⦄ ⦃j : SerdeTransaction⦄ ⦃m : RsMerkle sha256_algorithm_hash⦄
    ⦃im : IndexMap BlsPublicKeyWrapper TxMetadata⦄ ⦃ws : Tungstenite⦄ {State : Type 0} where
  abbrev pub InStepAfter : {A : Type 0} → CrateResult A × ServerState State → Type 0
  InStepAfter y = IsInStep y.1

  pub new-IsInStep : (rollup : State) (salt : Bytes) → IsInStep (new rollup salt)
  unfolding new Aggregator.new
  new-IsInStep rollup salt = record { valid = new-IsValid salt; tracked = new-IsTracked salt }

  add_batch-IsInStep :
      ⦃c : KeyCodec⦄ (batch : TransactionBatch) (x : ServerState State)
      → IsInStep x
      → IsInStep (add_batch batch x).1
  unfolding add_batch
  add_batch-IsInStep ⦃c⦄ batch x v =
      let a = x.aggregator in
      on_ok_elim InStepAfter (ok_or (c.key_to_json batch.from) (anyhow invalid_json)) x _ (λ e. v) v
        λ _ h.
          on_ok_atomic InStepAfter (Aggregator.add_batch batch a) a
            (λ u. record x { aggregator = u }) _ (add_batch-IsAtomic batch a) (λ r. v)
            λ _ k. record {
              valid = add_batch-IsValid batch a v.valid;
              tracked = batch-IsTracked batch x.connections_with_tx a v.tracked k;
            }

  add_signature-IsInStep :
      ⦃c : KeyCodec⦄ (pk : b.PublicKey) (signature : b.Signature) (x : ServerState State)
      → IsInStep x
      → IsInStep (add_signature pk signature x).1
  unfolding add_signature
  add_signature-IsInStep ⦃c⦄ pk signature x v =
      let a = x.aggregator in
      on_ok_elim InStepAfter (ok_or (c.key_to_json pk) (anyhow invalid_json)) x _ (λ e. v) v
        λ _ h.
          on_ok_atomic InStepAfter (Aggregator.add_signature pk signature a) a
            (λ u. record x { aggregator = u }) _ (add_signature-IsAtomic pk signature a) (λ r. v)
            λ _ k. record {
              valid = add_signature-IsValid pk signature a v.valid;
              tracked = signature-IsTracked pk signature x.connections_with_tx a v.tracked k;
            }

  -- A step of the aggregator that leaves its map as it is.
  pub same-IsInStep :
      (x : ServerState State) (a : Aggregator) (connections : Connections) (rollup : State)
      → IsInStep x
      → IsValid a
      → a.tx_hash_to_metadata ≡ x.aggregator.tx_hash_to_metadata
      → IsInStep (record x { aggregator = a; connections = connections; rollup_state = rollup })
  same-IsInStep x a connections rollup v u same = record {
    valid = u;
    tracked = λ k. rw same (v.tracked k);
  }

  pub start_collecting_signatures-IsInStep :
      ⦃w : SerdeWsMessage⦄ (x : ServerState State)
      → IsInStep x
      → IsInStep (start_collecting_signatures x).1
  unfolding start_collecting_signatures
  start_collecting_signatures-IsInStep x v =
      let a = x.aggregator in
      let next_valid = start_collecting_signatures-IsValid a v.valid in
      if_elim InStepAfter (is_empty (im.entries x.aggregator.tx_hash_to_metadata)) _ _ v (
        on_ok_elim InStepAfter (Aggregator.start_collecting_signatures a).0 _ _
          (λ e. same-IsInStep x _ _ _ v next_valid (start-map a))
          (same-IsInStep x _ _ _ v next_valid (start-map a))
          (λ _ h. same-IsInStep x _ _ _ v next_valid (start-map a)))

  -- Whatever becomes of the block, the table and the aggregator agree.
  pub finalise-IsInStep :
      ⦃t : RollupStateTrait State⦄ (salt : Bytes) (x : ServerState State)
      → IsInStep x
      → IsInStep (finalise salt x).1
  unfolding finalise
  finalise-IsInStep ⦃t⦄ salt x v =
      let a = x.aggregator in
      let next_valid = finalise-IsValid a v.valid in
      on_ok_elim InStepAfter (Aggregator.finalise a).0 _ _
        (λ e. same-IsInStep x _ _ _ v next_valid (finalise-map a))
        (same-IsInStep x _ _ _ v next_valid (finalise-map a))
        λ block h.
          on_ok_elim InStepAfter (t.add_transfer_block block x.rollup_state).0 _ _
            (λ e. same-IsInStep x _ _ _ v next_valid (finalise-map a))
            (same-IsInStep x _ _ _ v next_valid (finalise-map a))
            (λ _ k. record { valid = new-IsValid salt; tracked = new-IsTracked salt })

  pub remove_connection-IsInStep :
      (pk : b.PublicKey) (x : ServerState State) → IsInStep x → IsInStep (remove_connection pk x).1
  unfolding remove_connection
  remove_connection-IsInStep pk x v =
      option_elim InStepAfter (lookup (wrap pk) x.connections) _ _ v λ connection found.
        on_ok_elim InStepAfter (from_ws (ws.close connection.ws_send).0) _ _
          (λ e. same-IsInStep x _ _ _ v v.valid refl) (same-IsInStep x _ _ _ v v.valid refl)
          (λ _ h. same-IsInStep x _ _ _ v v.valid refl)

  module _ ⦃w : SerdeWsMessage⦄ ⦃c : KeyCodec⦄ where
    handle_message-IsInStep :
        (message : WsMessage) (x : ServerState State)
        → IsInStep x
        → IsInStep (handle_message message x).1
    unfolding handle_message send_batch_to_receivers
    handle_message-IsInStep (c_add_connection pk) x v = v
    handle_message-IsInStep (c_send_transaction_batch batch) x v = add_batch-IsInStep batch x v
    handle_message-IsInStep (c_send_transaction_batch_signature pk sig) x v =
        add_signature-IsInStep pk sig x v
    handle_message-IsInStep (c_send_batch_to_receivers proof bp) x v =
        same-IsInStep x _ _ _ v v.valid refl
    handle_message-IsInStep (s_send_transaction_inclusion_proof proof) x v = v
    handle_message-IsInStep (s_receive_transaction proof bp) x v = v

    pub handle_loop-IsInStep :
        (received : Result ws.WsError WsFrame) (x : ServerState State)
        → IsInStep x
        → IsInStep (handle_loop received x).1
    unfolding handle_loop
    handle_loop-IsInStep (ok frame) x v =
        on_ok_elim InStepAfter (parse_ws_message frame) x _ (λ e. v) v
          (λ message h. handle_message-IsInStep message x v)
    handle_loop-IsInStep (err e) x v = v
    handle_loop-IsInStep panic x v = v
